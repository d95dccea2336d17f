-- ===== src/Entry/Closed.antt =====
-- The whole program closes what it opens.
use bsreadrepeater.Base.{
  Bytes, List, Option, Bool, Preserves, ok, ◌≡◌, some, Outcome, arith, ◌∷◌, >>-if_ok, true, ◌≢◌,
  exec, false, ◌>>◌, none, fail, Action, [], if◌then◌else◌, >>-reaches, sym, refl, subst, >>-eq-ok,
}
use bsreadrepeater.Channel.{Outside}
use bsreadrepeater.Command.Reply.{Format}
use bsreadrepeater.Entry.{
  clean_process, cmd_addr_of, init_process, start_process, Host, startup_file_of, lifetime,
  main_inner, run_if_created,
}
use bsreadrepeater.JsonCommand.{JsonParser}
use bsreadrepeater.Rep.{bsrep_init, stored}
use bsreadrepeater.Rep.Closed.{counted_session, bsrep_run_inner-closes}
use bsreadrepeater.Rep.Loop.{Round, running}
use bsreadrepeater.Rep.Setup.{Start, set_up, bsrep_run_inner}
use bsreadrepeater.Rep.Started.{HasSlots}
use bsreadrepeater.Rep.Thread.{
  bsrep_wait_for_done, cleanup_bsrep, Process, bsrep_run_inner_thr, bsrep_start, free_bsrep,
}
use bsreadrepeater.Sockets.{opens, CloseSucceeds, closes}
use bsreadrepeater.Zmq.{Sock, outcome_of, Log}

module _ {F : Type 0} (w : Outside F) (fmt : Format F) (parse : JsonParser) (h : Host) where
  -- The process once `bsrep_init` has been called.
  abbrev pub initialised : Bytes → List Bytes → Process F → Process F
  initialised addr args p =
      (init_process w fmt parse h (cmd_addr_of addr) (some (startup_file_of args)) p).1

module _ {F : Type 0} (w : Outside F) (fmt : Format F) (parse : JsonParser) (h : Host) (k : Sock)
    (c : CloseSucceeds w.env) where
  abbrev IsProcessClosed : Process F → Type 0
  IsProcessClosed p = opens k p.repeater.session.app.log ≡ closes k p.repeater.session.app.log

  init-cmd_addr :
      (addr : Bytes) (file : Option Bytes) (p : Process F)
      → (init_process w fmt parse h addr file p).0 ≡ ok
      → (init_process w fmt parse h addr file p).1.repeater.bsrep.cmd_addr
        ≡ some (stored h.first addr)
  unfolding bsrep_init
  init-cmd_addr addr file p e = ground (arith, e)

  clean-IsProcessClosed :
      (x : Outcome × Process F)
      → IsProcessClosed x.1
      → IsProcessClosed (clean_process w fmt parse h x).1
  unfolding cleanup_bsrep free_bsrep
  clean-IsProcessClosed x e = ground (arith, e)

  wait-IsProcessClosed : (joined : Bool) → Preserves IsProcessClosed (bsrep_wait_for_done joined)
  unfolding bsrep_wait_for_done
  wait-IsProcessClosed joined p e = ground (arith, e)

  empty-closed : (log : Log) → log ≡ [] → opens k log ≡ closes k log
  unfolding opens closes
  empty-closed log e = rw e refl

  -- What the thread has done, if there is one.
  start-IsProcessClosed :
      (st : Start w fmt parse) (is : List Round) (p : Process F)
      → IsProcessClosed p
      → IsProcessClosed (bsrep_run_inner_thr w fmt parse st is p)
      → IsProcessClosed (start_process w fmt parse h st is p).1
  unfolding bsrep_start bsrep_run_inner_thr
  start-IsProcessClosed st is p a b = by_created h.created
    where
      run : Process F → Process F
      run = bsrep_run_inner_thr w fmt parse st is

      by_flag : (x : Bool) → IsProcessClosed (if x then run p else p)
      by_flag true = b
      by_flag false = a

      by_created :
          (x : Bool)
          → IsProcessClosed (
              run_if_created w fmt parse h st is
                (if◌then◌else◌ {A = Outcome × Process F} x
                  (outcome_of h.named, record p { thread_created = true })
                  (fail, p)).1)
      by_created true = b
      by_created false = by_flag p.thread_created

  -- Take a process that begins with no handler, no command socket and no call made, and in which
  -- `zmq_close` succeeds; let the set-up of the main loop return 0, should the thread come to it, and
  -- let the loop have ended. Then, however the start, the wait and the clean-up go, each socket has
  -- been closed as often as it was opened when `main_inner` returns.
  pub main_inner-closes :
      (name addr : Bytes) (args : List Bytes) (st : Start w fmt parse) (is : List Round)
      (p : Process F)
      → HasSlots w st.memreq_memory
      → p.repeater.session.app.handlers ≡ []
      → p.repeater.session.app.log ≡ []
      → p.repeater.session.chn.socket ≡ none
      → (set_up w
          (stored h.first (cmd_addr_of addr))
          st.fd
          st.startup_memory
          st.memreq_memory
          (counted_session w fmt parse st p.repeater)).0
        ≡ ok
      → (bsrep_run_inner w fmt parse st is (initialised w fmt parse h addr args p).repeater).0
        ≢ running
      → let log =
          (main_inner w fmt parse h (name ∷ addr ∷ args) st is p).1.repeater.session.app.log in
        opens k log ≡ closes k log
  unfolding main_inner lifetime bsrep_run_inner_thr
  main_inner-closes name addr args st is p slots e l u s over =
      clean-IsProcessClosed ((init >> prepare >> start >> bsrep_wait_for_done h.joined) p) (
        >>-reaches IsProcessClosed (init >> prepare >> start) (bsrep_wait_for_done h.joined) p
          (>>-if_ok IsProcessClosed (init >> prepare) start p
            (>>-reaches IsProcessClosed init prepare p closed (λ q i. i))
            (λ o.
              let both = >>-eq-ok init prepare p o in
              subst (λ (x : Outcome × Process F). IsProcessClosed (start x.1).1) (sym both.1)
                (start-IsProcessClosed st is (initialised w fmt parse h addr args p) closed
                  (ran both.0))))
          (wait-IsProcessClosed h.joined))
    where
      init : Action (Process F)
      init = init_process w fmt parse h (cmd_addr_of addr) (some (startup_file_of args))

      prepare : Action (Process F)
      prepare = exec (λ q. record q { repeater = record q.repeater { bsrep = q.repeater.bsrep } })

      start : Action (Process F)
      start = start_process w fmt parse h st is

      closed : IsProcessClosed (initialised w fmt parse h addr args p)
      closed = empty-closed p.repeater.session.app.log l

      ran :
          (init p).0 ≡ ok
          → IsProcessClosed
              (bsrep_run_inner_thr w fmt parse st is (initialised w fmt parse h addr args p))
      ran o =
          bsrep_run_inner-closes w fmt parse k c st is
            (initialised w fmt parse h addr args p).repeater (stored h.first (cmd_addr_of addr))
            slots e l u (init-cmd_addr (cmd_addr_of addr) (some (startup_file_of args)) p o) s over
