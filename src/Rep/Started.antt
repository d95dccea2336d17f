-- ===== src/Rep/Started.antt =====
-- The loop starts with sound handlers.
use bsreadrepeater.Base.{
  Bytes, Preserves, arith, fault, Outcome, some, >>-Preserves, ℕ, ◌≤◌, fail, ◌>>◌, none, ◌≡◌, ok,
  ◌∷◌, Option, length, refl, List, [], sym, subst,
}
use bsreadrepeater.Channel.{Outside}
use bsreadrepeater.Command.{Session, on_session_log, bsr_cmdchn_init, on_app}
use bsreadrepeater.Command.Reply.{Format}
use bsreadrepeater.Handlers.{on_app_log, memreq, App, startup}
use bsreadrepeater.Handlers.Commands.{on_app_log-IsSound}
use bsreadrepeater.Handlers.Lookup.{Ascending}
use bsreadrepeater.Handlers.Sound.{handler_list_add-IsSound, IsSound, AllSound}
use bsreadrepeater.JsonCommand.{JsonParser}
use bsreadrepeater.Memreq.{outq_len_max, Shared, Memreq, bsr_memreq_init}
use bsreadrepeater.Memreq.Ring.{IsValid}
use bsreadrepeater.Rep.{on_statistics, Repeater}
use bsreadrepeater.Rep.Loop.{Status, Round, running, returned, ended, run_rounds}
use bsreadrepeater.Rep.Setup.{
  add_startup, add_memreq, handlers_step, make_ctx, keep_memreq, Step, call_app, command_step, Made,
  set_up, keep_startup, make_poller, cleaned, Start, loop_from, bsrep_run_inner,
}
use bsreadrepeater.Rep.Sound.{run_rounds-IsSound}
use bsreadrepeater.Rep.Steps.{then_step-Keeps, make_poller-Keeps, StepKeeps, make_ctx-Keeps}
use bsreadrepeater.Startup.{bsr_startupcmd_init, Startup, bufcap, Running}
use bsreadrepeater.Stats.{bsr_statistics_init}
use bsreadrepeater.Text.{copy_addr}
use bsreadrepeater.TimedEvents.{bsr_timed_events_init}
use bsreadrepeater.Zmq.{
  Sock, rep, call, alloc, Log, poller_add, pollin, opened, not_opened, bind, ctx_set, Request,
}

module _ {F : Type 0} (w : Outside F) where
  -- Memory for a queue has its twelve slots.
  abbrev pub HasSlots : Memreq → Type 0
  HasSlots m = length m.outq ≡ outq_len_max

  abbrev pub SoundApp : Session F → Type 0
  SoundApp s = IsSound s.app

  logged-IsSound : (a : App F) (l : Log) → IsSound a → IsSound (record a { log = l })
  logged-IsSound a l i = record { handlers_sound = i.handlers_sound; ids = i.ids; calm = i.calm }

  init_startup-Fits :
      (fd : ℕ) (cmdaddr : Bytes) (junk : Startup) (log : Log)
      → length (bsr_startupcmd_init w.env fd cmdaddr junk log).1.self.text ≤ bufcap
  unfolding bsr_startupcmd_init call
  init_startup-Fits fd cmdaddr junk log = ground arith

  init_memreq-IsValid :
      (cmdaddr : Bytes) (junk : Memreq) (log : Log)
      → HasSlots junk
      → IsValid (bsr_memreq_init w.env cmdaddr junk log).1.self
  unfolding bsr_memreq_init call
  init_memreq-IsValid cmdaddr junk log h = ground arith

  keep_startup-IsSound :
      (r : Outcome × Running) (a : App F)
      → length r.1.self.text ≤ bufcap
      → IsSound a
      → IsSound (keep_startup w r a).1
  keep_startup-IsSound (ok, r) a l i =
      handler_list_add-IsSound (startup r.self) (record a { log = r.log }) l
        (logged-IsSound a r.log i)
  keep_startup-IsSound (fail, r) a l i = logged-IsSound a r.log i
  keep_startup-IsSound (fault, r) a l i = logged-IsSound a r.log i

  keep_memreq-IsSound :
      (r : Outcome × Shared) (a : App F)
      → IsValid r.1.self
      → IsSound a
      → IsSound (keep_memreq w r a).1
  keep_memreq-IsSound (ok, r) a l i =
      handler_list_add-IsSound (memreq r.self) (record a { log = r.log }) l
        (logged-IsSound a r.log i)
  keep_memreq-IsSound (fail, r) a l i = logged-IsSound a r.log i
  keep_memreq-IsSound (fault, r) a l i = logged-IsSound a r.log i

  add_startup-IsSound :
      (fd : Option ℕ) (cmdaddr : Bytes) (junk : Startup)
      → Preserves IsSound (add_startup w fd cmdaddr junk)
  unfolding add_startup
  add_startup-IsSound none cmdaddr junk = λ a i. i
  add_startup-IsSound (some fd) cmdaddr junk =
      >>-Preserves IsSound (on_app_log (call w.env alloc)) _
        (on_app_log-IsSound w (call w.env alloc))
        (λ a i.
          keep_startup-IsSound (bsr_startupcmd_init w.env fd cmdaddr junk a.log) a
            (init_startup-Fits fd cmdaddr junk a.log) i)

  add_memreq-IsSound :
      (cmdaddr : Bytes) (junk : Memreq)
      → HasSlots junk
      → Preserves IsSound (add_memreq w cmdaddr junk)
  unfolding add_memreq
  add_memreq-IsSound cmdaddr junk h =
      >>-Preserves IsSound (on_app_log (call w.env alloc)) _
        (on_app_log-IsSound w (call w.env alloc))
        (λ a i.
          keep_memreq-IsSound (bsr_memreq_init w.env cmdaddr junk a.log) a
            (init_memreq-IsValid cmdaddr junk a.log h) i)

  cmdchn_init-IsSound : (addr : Bytes) → Preserves SoundApp (bsr_cmdchn_init w addr)
  unfolding bsr_cmdchn_init
  cmdchn_init-IsSound addr s i = by_socket (w.env.socket s.app.log rep)
    where
      by_socket :
          (k : Option Sock)
          → SoundApp
              (elim k as (λ y. Outcome × Session F) [
                | none ↦ (
                  fail,
                  record s {
                    chn = record { socket = none; addr = copy_addr addr };
                    app = record s.app { log = not_opened rep ∷ s.app.log };
                  },
                )
                | some sock ↦
                    (on_session_log (call w.env (bind sock addr))
                        >> on_session_log (call w.env (poller_add sock pollin)))
                      (record s {
                        chn = record { socket = some sock; addr = copy_addr addr };
                        app = record s.app { log = opened rep sock ∷ s.app.log };
                      })
              ]).1
      by_socket none = logged-IsSound s.app _ i
      by_socket (some sock) =
          >>-Preserves SoundApp (on_session_log (call w.env (bind sock addr)))
            (on_session_log (call w.env (poller_add sock pollin))) (λ t j. logged-IsSound t.app _ j)
            (λ t j. logged-IsSound t.app _ j)
            (record s {
              chn = record { socket = some sock; addr = copy_addr addr };
              app = record s.app { log = opened rep sock ∷ s.app.log };
            })
            (logged-IsSound s.app _ i)

  call-IsSound : (r : Request) → Preserves SoundApp (on_app (call_app w r))
  call-IsSound r s i = on_app_log-IsSound w (call w.env r) s.app i

  -- A step of the set-up that leaves the handlers sound.
  abbrev pub SoundStep : Step w → Type 0
  SoundStep = StepKeeps w SoundApp

  pub set_up-IsSound :
      (addr : Bytes) (fd : Option ℕ) (start : Startup) (queue : Memreq) (s : Session F)
      → HasSlots queue
      → SoundApp s
      → SoundStep (set_up w addr fd start queue s)
  unfolding set_up
  set_up-IsSound addr fd start queue s h i =
      then_step-Keeps w SoundApp (handlers_step w fd addr start queue) _
        (then_step-Keeps w SoundApp (command_step w addr) _
          (then_step-Keeps w SoundApp (make_poller w) (make_ctx w s)
            (make_ctx-Keeps w SoundApp (call-IsSound alloc) (call-IsSound ctx_set) s i)
            (make_poller-Keeps w SoundApp (call-IsSound alloc) (call-IsSound ctx_set)))
          (λ made t j. cmdchn_init-IsSound addr t j))
        (λ made t j.
          >>-Preserves SoundApp (on_app (add_startup w fd addr start))
            (on_app (add_memreq w addr queue)) (λ u k. add_startup-IsSound fd addr start u.app k)
            (λ u k. add_memreq-IsSound addr queue h u.app k) t j)

module _ {F : Type 0} (w : Outside F) (fmt : Format F) (parse : JsonParser) where
  -- While the loop runs, nothing has been cleaned up.
  abbrev SoundIfRunning : Status × Repeater F → Type 0
  SoundIfRunning x = x.0 ≡ running → IsSound x.1.session.app

  cleaned-IsSound :
      (r : Repeater F) (made : Made) (x : Status × Repeater F)
      → IsSound x.1.session.app
      → SoundIfRunning (cleaned w fmt parse r made x)
  cleaned-IsSound r made (running, t) i e = i
  cleaned-IsSound r made (ended, t) i e = cc
  cleaned-IsSound r made (returned o, t) i e = cc

  loop_from-IsSound :
      (is : List Round) (r : Repeater F) (x : Outcome × Made × Session F)
      → IsSound x.2.app
      → SoundIfRunning (loop_from w fmt parse is r x)
  loop_from-IsSound is r (ok, made, s) i e =
      cleaned-IsSound r made (run_rounds w fmt parse is (record r { session = s }))
        (run_rounds-IsSound w fmt parse is (record r { session = s }) i) e
  loop_from-IsSound is r (fail, made, s) i e = cc
  loop_from-IsSound is r (fault, made, s) i e = cc

  -- `bsrep_run_inner` on an empty list of handlers, whatever the statistics held before: as long as its
  -- loop runs, the handlers are sound, those from the set-up and those that commands have added since.
  -- The memory that `malloc` gives for a queue has its twelve slots.
  pub bsrep_run_inner-IsSound :
      (st : Start w fmt parse) (is : List Round) (r : Repeater F)
      → HasSlots w st.memreq_memory
      → r.session.app.handlers ≡ []
      → (bsrep_run_inner w fmt parse st is r).0 ≡ running
      → IsSound (bsrep_run_inner w fmt parse st is r).1.session.app
  unfolding bsrep_run_inner bsr_statistics_init bsr_timed_events_init
  bsrep_run_inner-IsSound st is r h e = by_addr r.bsrep.cmd_addr
    where
      counted : Repeater F
      counted = (on_statistics (bsr_statistics_init w.floats st.first_clock st.second_clock) r).1

      empty-IsSound : IsSound counted.session.app
      empty-IsSound = record {
        handlers_sound = subst AllSound (sym e) tt;
        ids = subst (Ascending 0 r.session.app.next_id) (sym e) tt;
        calm = refl;
      }

      by_addr :
          (a : Option Bytes)
          → SoundIfRunning (elim a as (λ y. Status × Repeater F) [
            | none ↦ (returned fault, counted)
            | some addr ↦
                loop_from w fmt parse is counted
                  (set_up w addr st.fd st.startup_memory st.memreq_memory counted.session)
          ])
      by_addr none q = cc
      by_addr (some addr) q =
          loop_from-IsSound is counted
            (set_up w addr st.fd st.startup_memory st.memreq_memory counted.session)
            (set_up-IsSound w addr st.fd st.startup_memory st.memreq_memory counted.session h
              empty-IsSound)
            q
