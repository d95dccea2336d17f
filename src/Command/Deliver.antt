-- ===== src/Command/Deliver.antt =====
-- `handlers_handle_msg`: an event goes to the handler that its user data points to.
use bsreadrepeater.Base.{Bytes, some, ℕ, fault, none, List, Outcome, ok, Action}
use bsreadrepeater.Channel.{Ctx, Outside}
use bsreadrepeater.Channel.Receive.{Received, bsr_chnhandler_handle_event}
use bsreadrepeater.Command.{on_app, Session, CmdReceived}
use bsreadrepeater.Command.Dispatch.{bsr_cmdchn_handle_event}
use bsreadrepeater.Command.Reply.{Format}
use bsreadrepeater.Handlers.{
  lookup_id, write_source, startup, Handler, set_handler, App, memreq, source, dummy_source,
}
use bsreadrepeater.JsonCommand.{JsonParser}
use bsreadrepeater.Memreq.{Shared, bsr_memreq_handle_event}
use bsreadrepeater.Split.{Timespec}
use bsreadrepeater.Startup.{bsr_startupcmd_handle_event, Running, Input}
use bsreadrepeater.Zmq.{Log}

-- Where the user data of a poller event points: the command handler on the stack, or a handler on the
-- heap, by its address.
pub data Owner : Type 0 where
  command_handler : Owner
  listed : ℕ → Owner

-- What the sockets and the file of the handler give in an event: each kind of handler uses its own
-- part. `stack` is what the local array of the command handler holds at the start.
pub record Arrival : Type 0 where
  pub commands : List CmdReceived
  pub stack : Bytes
  pub parts : List Received
  pub from_startup : Input

module _ {F : Type 0} (w : Outside F) (fmt : Format F) (parse : JsonParser) where
  open w use {env}

  -- The handler is written through its pointer.
  abbrev pub write_handler : ℕ → Handler F → Log → App F → App F
  write_handler id h log a = record a { handlers = set_handler id h a.handlers; log = log }

  abbrev pub source_done : ℕ → App F → Outcome × Ctx F × List Received → Outcome × App F
  source_done id a (o, c, rest) = write_source id a (o, c)

  abbrev pub startup_done : ℕ → App F → Outcome × Running → Outcome × App F
  startup_done id a (o, r) = (o, write_handler id (startup r.self) r.log a)

  abbrev pub memreq_done : ℕ → App F → Outcome × Shared → Outcome × App F
  memreq_done id a (o, r) = (o, write_handler id (memreq r.self) r.log a)

  -- The cases of the `switch` for the handlers on the heap; a dummy source is the default.
  unfoldable pub deliver_to : ℕ → Handler F → ℕ → Arrival → Timespec → Action (App F)
  deliver_to id (source m) events arrival tspoll a = source_done id a (
      bsr_chnhandler_handle_event w tspoll events arrival.parts
        (record { self = m; stats = a.stats; log = a.log }))
  deliver_to id (startup m) events arrival tspoll a =
      startup_done id a
        (bsr_startupcmd_handle_event env arrival.from_startup (record { self = m; log = a.log }))
  deliver_to id (memreq m) events arrival tspoll a =
      memreq_done id a (bsr_memreq_handle_event env events (record { self = m; log = a.log }))
  deliver_to id (dummy_source d) events arrival tspoll a = (ok, a)

  -- A pointer to a handler that has been freed is a fault.
  unfoldable pub deliver_listed : ℕ → ℕ → Arrival → Timespec → Action (App F)
  unfolding deliver_to
  deliver_listed id events arrival tspoll a = elim (lookup_id id a.handlers) [
    | none ↦ (fault, a)
    | some h ↦ deliver_to id h events arrival tspoll a
  ]

  unfoldable pub handlers_handle_msg : Owner → ℕ → Arrival → Timespec → Action (Session F)
  handlers_handle_msg command_handler events arrival tspoll =
      bsr_cmdchn_handle_event w fmt parse arrival.stack arrival.commands
  handlers_handle_msg (listed id) events arrival tspoll =
      on_app (deliver_listed id events arrival tspoll)
