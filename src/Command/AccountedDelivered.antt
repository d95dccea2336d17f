-- ===== src/Command/AccountedDelivered.antt =====
-- Whatever event is delivered, to whichever handler, every socket that is open has an owner.
use bsreadrepeater.Base.{ℕ, List, some, none, arith, Outcome, ◌≡◌, fault, ◌+◌, refl, Option}
use bsreadrepeater.Channel.{Chnhandler, Outside}
use bsreadrepeater.Channel.Ready.{IsReady}
use bsreadrepeater.Channel.Receive.{Received, bsr_chnhandler_handle_event}
use bsreadrepeater.Channel.Untouched.{handle_event-IsOwned}
use bsreadrepeater.Command.Accounted.{on_app-Sealed, Sealed}
use bsreadrepeater.Command.AccountedEvents.{cmdchn_event-Sealed}
use bsreadrepeater.Command.Deliver.{
  handlers_handle_msg, command_handler, listed, Arrival, deliver_listed, deliver_to, source_done,
  Owner,
}
use bsreadrepeater.Command.Delivered.{deliver_listed-IsSound}
use bsreadrepeater.Command.Reply.{Format}
use bsreadrepeater.Handlers.{
  memreq, dummy_source, Handler, startup, remove_id, App, source, lookup_id,
}
use bsreadrepeater.Handlers.Owned.{
  all_held-set_handler, all_held, IsAppOwned, all_held-same, at_source, all_held-remove_id,
}
use bsreadrepeater.Handlers.OwnedCommands.{KeepsAccount}
use bsreadrepeater.Handlers.Sound.{IsSoundHandler, HandlerSound, lookup_id_sound}
use bsreadrepeater.JsonCommand.{JsonParser}
use bsreadrepeater.Memreq.{Shared, bsr_memreq_handle_event}
use bsreadrepeater.Sockets.{CloseSucceeds, opens, closes, IsOpen}
use bsreadrepeater.Split.{Timespec}
use bsreadrepeater.Startup.{bsr_startupcmd_handle_event}
use bsreadrepeater.Startup.Owned.{handle_event-IsHolding}
use bsreadrepeater.Zmq.{Sock}

module _ {F : Type 0} (w : Outside F) (fmt : Format F) (parse : JsonParser) (k : Sock)
    (c : CloseSucceeds w.env) where
  source_done-IsAppOwned :
      (id : ℕ) (m : Chnhandler F) (events : ℕ) (parts : List Received) (tspoll : Timespec) (n : ℕ)
      (a : App F)
      → IsReady m
      → lookup_id id a.handlers ≡ some (source m)
      → IsAppOwned k n a
      → IsAppOwned k n
          (source_done w fmt parse id a
            (bsr_chnhandler_handle_event w tspoll events parts (at_source k m a))).1
  source_done-IsAppOwned id m events parts tspoll n a r l o =
      let others = all_held k (remove_id id a.handlers) + n in
      let x = bsr_chnhandler_handle_event w tspoll events parts (at_source k m a) in
      omega (
        arith,
        handle_event-IsOwned w k tspoll events parts others (at_source k m a) r
            (omega (arith, o, all_held-remove_id k id (source m) a.handlers l)),
        all_held-set_handler k id (source m) (source x.1.self) a.handlers l,
      )

  memreq-sock :
      (events : ℕ) (s : Shared)
      → (bsr_memreq_handle_event w.env events s).1.self.sock_out ≡ s.self.sock_out
  unfolding bsr_memreq_handle_event
  memreq-sock events s = ground arith

  memreq-IsOpen :
      (events n : ℕ) (s : Shared)
      → IsOpen k n s.log
      → IsOpen k n (bsr_memreq_handle_event w.env events s).1.log
  unfolding bsr_memreq_handle_event opens closes
  memreq-IsOpen events n s h = ground (arith, h)

  deliver_to-IsAppOwned :
      (id : ℕ) (h : Handler F) (events : ℕ) (arrival : Arrival) (tspoll : Timespec) (n : ℕ)
      (a : App F)
      → IsSoundHandler h
      → lookup_id id a.handlers ≡ some h
      → IsAppOwned k n a
      → IsAppOwned k n (deliver_to w fmt parse id h events arrival tspoll a).1
  unfolding deliver_to
  deliver_to-IsAppOwned id (source m) events arrival tspoll n a s l o =
      source_done-IsAppOwned id m events arrival.parts tspoll n a s.0 l o
  deliver_to-IsAppOwned id (startup m) events arrival tspoll n a s l o =
      let r =
        bsr_startupcmd_handle_event w.env arrival.from_startup (record { self = m; log = a.log }) in
      let h =
        handle_event-IsHolding w.env k m.sock_out (all_held k a.handlers + n) arrival.from_startup
          (record { self = m; log = a.log }) (refl, o) in
      rw (all_held-same k id (startup m) (startup r.1.self) a.handlers l (rw h.0 refl)) h.1
  deliver_to-IsAppOwned id (memreq m) events arrival tspoll n a s l o =
      let t : Shared = record { self = m; log = a.log } in
      let r = bsr_memreq_handle_event w.env events t in
      rw
        (all_held-same k id (memreq m) (memreq r.1.self) a.handlers l
          (rw (memreq-sock events t) refl))
        (memreq-IsOpen events (all_held k a.handlers + n) t o)
  deliver_to-IsAppOwned id (dummy_source d) events arrival tspoll n a s l o = o

  deliver_listed-KeepsAccount :
      (id events : ℕ) (arrival : Arrival) (tspoll : Timespec)
      → KeepsAccount w k (deliver_listed w fmt parse id events arrival tspoll)
  unfolding deliver_listed
  deliver_listed-KeepsAccount id events arrival tspoll n a i o =
      by_lookup (lookup_id id a.handlers) refl (lookup_id_sound id a.handlers i.handlers_sound)
    where
      by_lookup :
          (r : Option (Handler F))
          → lookup_id id a.handlers ≡ r
          → HandlerSound r
          → IsAppOwned k n
              (elim r as (λ x. Outcome × App F) [
                | none ↦ (fault, a)
                | some h ↦ deliver_to w fmt parse id h events arrival tspoll a
              ]).1
      by_lookup none l s = o
      by_lookup (some h) l s = deliver_to-IsAppOwned id h events arrival tspoll n a s l o

  pub handlers_handle_msg-Sealed :
      (owner : Owner) (events : ℕ) (arrival : Arrival) (tspoll : Timespec)
      → Sealed w fmt parse k (handlers_handle_msg w fmt parse owner events arrival tspoll)
  unfolding handlers_handle_msg
  handlers_handle_msg-Sealed command_handler events arrival tspoll =
      cmdchn_event-Sealed w fmt parse k c arrival.stack arrival.commands
  handlers_handle_msg-Sealed (listed id) events arrival tspoll =
      on_app-Sealed w fmt parse k (deliver_listed w fmt parse id events arrival tspoll)
        (deliver_listed-IsSound w fmt parse id events arrival tspoll)
        (deliver_listed-KeepsAccount id events arrival tspoll)
