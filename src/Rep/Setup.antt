-- ===== src/Rep/Setup.antt =====
-- `bsrep_run_inner` before the loop, and what the `cleanup` attributes do when it returns.
use bsreadrepeater.Base.{
  Action, fault, ok, Bool, Bytes, done, some, none, ℕ, true, Option, List, ◌>>◌, false,
  if◌then◌else◌, Outcome,
}
use bsreadrepeater.Channel.{Outside}
use bsreadrepeater.Command.{bsr_cmdchn_init, Session, cleanup_bsr_cmdchn, on_app}
use bsreadrepeater.Command.Reply.{Format}
use bsreadrepeater.Handlers.{
  handler_list_add, memreq, on_app_log, App, startup, cleanup_struct_handler_list,
}
use bsreadrepeater.JsonCommand.{JsonParser}
use bsreadrepeater.Memreq.{Memreq, Shared, bsr_memreq_init}
use bsreadrepeater.Rep.{Repeater, on_statistics}
use bsreadrepeater.Rep.Loop.{returned, run_rounds, Round, Status, running}
use bsreadrepeater.Split.{Timespec}
use bsreadrepeater.Startup.{Running, Startup, bsr_startupcmd_init}
use bsreadrepeater.Stats.{bsr_statistics_init}
use bsreadrepeater.Zmq.{
  poller_destroy, ctx_set, Request, ctx_term, attempt, alloc, timers_destroy, call,
}

-- What has been made so far, for the clean-up.
pub record Made : Type 0 where
  pub ctx : Bool
  pub poller : Bool
  pub timers : Bool
  pub cmdhandler : Bool

module _ {F : Type 0} (w : Outside F) where
  open w use {env, floats}

  abbrev pub call_app : Request → Action (App F)
  call_app r = on_app_log (call env r)

  -- The result of a step of the set-up with what is to be cleaned up after it.
  abbrev pub Step : Type 0
  Step = Outcome × Made × Session F

  abbrev pub and_step : (Session F → Step) → Made → Outcome × Session F → Step
  and_step k made (ok, s) = k s
  and_step k made (o, s) = (o, made, s)

  abbrev pub keep_startup : Outcome × Running → App F → Outcome × App F
  keep_startup (ok, r) a = handler_list_add (startup r.self) (record a { log = r.log })
  keep_startup (o, r) a = (o, record a { log = r.log })

  -- The startup handler, if the file could be opened; on an error its memory is freed and its socket
  -- stays open. `junk` is the memory that `malloc` gives.
  unfoldable pub add_startup : Option ℕ → Bytes → Startup → Action (App F)
  unfolding bsr_startupcmd_init call handler_list_add
  add_startup none cmdaddr junk = done
  add_startup (some fd) cmdaddr junk =
      call_app alloc >> (λ a. keep_startup (bsr_startupcmd_init env fd cmdaddr junk a.log) a)

  abbrev pub keep_memreq : Outcome × Shared → App F → Outcome × App F
  keep_memreq (ok, r) a = handler_list_add (memreq r.self) (record a { log = r.log })
  keep_memreq (o, r) a = (o, record a { log = r.log })

  unfoldable pub add_memreq : Bytes → Memreq → Action (App F)
  unfolding bsr_memreq_init call handler_list_add
  add_memreq cmdaddr junk =
      call_app alloc >> (λ a. keep_memreq (bsr_memreq_init env cmdaddr junk a.log) a)

  -- The context with its two options.
  unfoldable pub make_ctx : Session F → Step
  unfolding call
  make_ctx s =
      let none_made : Made = record {
        ctx = false;
        poller = false;
        timers = false;
        cmdhandler = false;
      } in
      and_step
        (λ t.
          let (o, u) = (on_app (call_app ctx_set) >> on_app (call_app ctx_set)) t in
          (o, record none_made { ctx = true }, u))
        none_made (on_app (call_app alloc) s)

  unfoldable pub make_poller : Made → Session F → Step
  unfolding call
  make_poller made s =
      and_step
        (λ t.
          let (o, u) = on_app (call_app alloc) t in
          (o, record made { poller = true; timers = elim o [ ok ↦ true | _ ↦ false ] }, u))
        made (on_app (call_app alloc) s)

  abbrev pub then_step : (Made → Session F → Step) → Step → Step
  then_step k (ok, made, s) = k made s
  then_step k (o, made, s) = (o, made, s)

  abbrev pub command_step : Bytes → Made → Session F → Step
  command_step addr made s =
      let (o, t) = bsr_cmdchn_init w addr s in (o, record made { cmdhandler = true }, t)

  abbrev pub handlers_step : Option ℕ → Bytes → Startup → Memreq → Made → Session F → Step
  handlers_step fd addr start queue made s =
      let (o, t) = (on_app (add_startup fd addr start) >> on_app (add_memreq addr queue)) s in
      (o, made, t)

  -- `fd` is what `open` gives for the startup file, if there is one.
  unfoldable pub set_up : Bytes → Option ℕ → Startup → Memreq → Session F → Step
  unfolding make_ctx make_poller add_startup add_memreq bsr_cmdchn_init
  set_up addr fd start queue s =
      then_step (handlers_step fd addr start queue)
        (then_step (command_step addr) (then_step make_poller (make_ctx s)))

  abbrev when : Bool → Action (Session F) → Action (Session F)
  when b m s = if b then m s else (ok, s)

  abbrev attempt_app : Request → Action (Session F)
  attempt_app r = on_app (on_app_log (attempt env r))

  abbrev ignoring : Action (Session F) → Session F → Session F
  ignoring m s = (m s).1

  -- `cleanup_bsr_poller`.
  unfoldable pub cleanup_bsr_poller : Made → Session F → Session F
  unfolding attempt
  cleanup_bsr_poller made s =
      ignoring (when made.timers (attempt_app timers_destroy))
        (ignoring (when made.poller (attempt_app poller_destroy)) s)

  -- The attributes run in the reverse order of the variables: the command handler, the list of
  -- handlers, the poller and the context.
  unfoldable pub tear_down : Made → Session F → Session F
  unfolding cleanup_bsr_cmdchn cleanup_struct_handler_list cleanup_bsr_poller attempt
  tear_down made s =
      let closed = ignoring (when made.cmdhandler (cleanup_bsr_cmdchn w)) s in
      let freed = ignoring (on_app (cleanup_struct_handler_list w)) closed in
      ignoring (when made.ctx (attempt_app ctx_term)) (cleanup_bsr_poller made freed)

module _ {F : Type 0} (w : Outside F) (fmt : Format F) (parse : JsonParser) where
  -- What is known before the thread runs: the readings of the clock for the statistics, the answer of
  -- `open`, and memory.
  pub record Start : Type 0 where
    pub first_clock : Timespec
    pub second_clock : Timespec
    pub fd : Option ℕ
    pub startup_memory : Startup
    pub memreq_memory : Memreq

  abbrev pub cleaned : Repeater F → Made → Status × Repeater F → Status × Repeater F
  cleaned r made (running, r') = (running, r')
  cleaned r made (st, r') = (st, record r' { session = tear_down w made r'.session })

  abbrev pub loop_from : List Round → Repeater F → Outcome × Made × Session F → Status × Repeater F
  loop_from is r (ok, made, s) =
      cleaned r made (run_rounds w fmt parse is (record r { session = s }))
  loop_from is r (o, made, s) = (returned o, record r { session = tear_down w made s })

  -- `bsrep_run_inner` over the rounds that happen. A `cmd_addr` that is NULL is read by `strncpy`.
  unfoldable pub bsrep_run_inner : Start → List Round → Repeater F → Status × Repeater F
  unfolding set_up tear_down bsr_statistics_init run_rounds
  bsrep_run_inner st is r =
      let counted =
        (on_statistics (bsr_statistics_init w.floats st.first_clock st.second_clock) r).1 in
      elim r.bsrep.cmd_addr [
        | none ↦ (returned fault, counted)
        | some addr ↦
            loop_from is counted
              (set_up w addr st.fd st.startup_memory st.memreq_memory counted.session)
      ]
