-- ===== src/Command/Delivered.antt =====
-- Whatever event is delivered, to whichever handler, the handlers stay sound.
use bsreadrepeater.Base.{some, ℕ, none, Outcome, Preserves, Option, fault, List}
use bsreadrepeater.Channel.{Ctx, Outside}
use bsreadrepeater.Channel.Receive.{bsr_chnhandler_handle_event, Received}
use bsreadrepeater.Command.Deliver.{
  Arrival, deliver_listed, write_handler, Owner, command_handler, deliver_to, listed,
  handlers_handle_msg, source_done,
}
use bsreadrepeater.Command.Events.{bsr_cmdchn_handle_event-Safe}
use bsreadrepeater.Command.Reply.{Format}
use bsreadrepeater.Command.Sound.{Safe}
use bsreadrepeater.Handlers.{App, memreq, dummy_source, lookup_id, Handler, startup, source}
use bsreadrepeater.Handlers.Lookup.{set_handler-Ascending}
use bsreadrepeater.Handlers.Serving.{event-Serving}
use bsreadrepeater.Handlers.Sound.{
  AllSound-set_handler, lookup_id_sound, HandlerSound, IsSoundHandler, write_source-IsSound,
  IsSound, IsServing,
}
use bsreadrepeater.JsonCommand.{JsonParser}
use bsreadrepeater.Memreq.Ring.{handle_event-IsValid}
use bsreadrepeater.Split.{Timespec}
use bsreadrepeater.Startup.Bounds.{handle_event-Fits}
use bsreadrepeater.Zmq.{Log}

module _ {F : Type 0} (w : Outside F) (fmt : Format F) (parse : JsonParser) where
  -- A handler that is written back as sound.
  write_handler-IsSound :
      (id : ℕ) (h : Handler F) (log : Log)
      → IsSoundHandler h
      → (a : App F) → IsSound a
      → IsSound (write_handler w fmt parse id h log a)
  write_handler-IsSound id h log s a i = record {
    handlers_sound = AllSound-set_handler id h a.handlers s i.handlers_sound;
    ids = set_handler-Ascending id h a.handlers 0 a.next_id i.ids;
    calm = i.calm;
  }

  source_done-IsSound :
      (id : ℕ) (a : App F) (r : Outcome × Ctx F × List Received)
      → IsSound a
      → IsServing w r.1
      → IsSound (source_done w fmt parse id a r).1
  source_done-IsSound id a (o, c, rest) i s = write_source-IsSound w id a (o, c) i s

  deliver_to-IsSound :
      (id : ℕ) (h : Handler F) (events : ℕ) (arrival : Arrival) (tspoll : Timespec)
      → IsSoundHandler h
      → Preserves IsSound (deliver_to w fmt parse id h events arrival tspoll)
  unfolding deliver_to
  deliver_to-IsSound id (source m) events arrival tspoll s a i =
      let c : Ctx F = record { self = m; stats = a.stats; log = a.log } in
      source_done-IsSound id a (bsr_chnhandler_handle_event w tspoll events arrival.parts c) i
        (event-Serving w tspoll events arrival.parts c (s.0, s.1, i.calm))
  deliver_to-IsSound id (startup m) events arrival tspoll s a i =
      write_handler-IsSound id _ _
        (handle_event-Fits w.env arrival.from_startup (record { self = m; log = a.log }) s) a i
  deliver_to-IsSound id (memreq m) events arrival tspoll s a i =
      write_handler-IsSound id _ _
        (handle_event-IsValid w.env events (record { self = m; log = a.log }) s) a i
  deliver_to-IsSound id (dummy_source d) events arrival tspoll s a i = i

  pub deliver_listed-IsSound :
      (id events : ℕ) (arrival : Arrival) (tspoll : Timespec)
      → Preserves IsSound (deliver_listed w fmt parse id events arrival tspoll)
  unfolding deliver_listed
  deliver_listed-IsSound id events arrival tspoll a i =
      by_lookup (lookup_id id a.handlers) (lookup_id_sound id a.handlers i.handlers_sound)
    where
      by_lookup :
          (r : Option (Handler F))
          → HandlerSound r
          → IsSound
              (elim r as (λ x. Outcome × App F) [
                | none ↦ (fault, a)
                | some h ↦ deliver_to w fmt parse id h events arrival tspoll a
              ]).1
      by_lookup none s = i
      by_lookup (some h) s = deliver_to-IsSound id h events arrival tspoll s a i

  pub handlers_handle_msg-Safe :
      (owner : Owner) (events : ℕ) (arrival : Arrival) (tspoll : Timespec)
      → Safe w fmt parse (handlers_handle_msg w fmt parse owner events arrival tspoll)
  unfolding handlers_handle_msg
  handlers_handle_msg-Safe command_handler events arrival tspoll s i =
      bsr_cmdchn_handle_event-Safe w fmt parse arrival.stack arrival.commands s i
  handlers_handle_msg-Safe (listed id) events arrival tspoll s i =
      deliver_listed-IsSound id events arrival tspoll s.app i
