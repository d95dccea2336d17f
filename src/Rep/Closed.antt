-- ===== src/Rep/Closed.antt =====
-- The clean-up after the main loop closes every socket that is open.
use bsreadrepeater.Base.{
  Bytes, List, false, ◌≡◌, Bool, refl, arith, [], true, fail, Option, fault, ◌≢◌, some,
  if◌then◌else◌, ok, none, subst, sym,
}
use bsreadrepeater.Channel.{Outside}
use bsreadrepeater.Command.{Session, on_app, cleanup_bsr_cmdchn}
use bsreadrepeater.Command.Accounted.{IsAccounted}
use bsreadrepeater.Command.Reply.{Format}
use bsreadrepeater.Handlers.{on_app_log, App, cleanup_struct_handler_list}
use bsreadrepeater.Handlers.Lookup.{Ascending}
use bsreadrepeater.Handlers.Owned.{IsAppOwned}
use bsreadrepeater.Handlers.OwnedCommands.{cleanup_all-IsOpen}
use bsreadrepeater.Handlers.Sound.{IsSound, AllSound}
use bsreadrepeater.JsonCommand.{JsonParser}
use bsreadrepeater.Rep.{Repeater, on_statistics}
use bsreadrepeater.Rep.Accounted.{run_rounds-IsAccounted}
use bsreadrepeater.Rep.Loop.{run_rounds, ended, running, Status, Round, returned}
use bsreadrepeater.Rep.Opened.{IsUnbound, set_up-IsSetUp}
use bsreadrepeater.Rep.Setup.{
  tear_down, cleanup_bsr_poller, set_up, bsrep_run_inner, Start, cleaned, Made, loop_from, Step,
}
use bsreadrepeater.Rep.Started.{HasSlots, set_up-IsSound}
use bsreadrepeater.Sockets.{CloseSucceeds, closes, IsOpen, attempt-KeepsOpen, opens, is_close_of}
use bsreadrepeater.Stats.{bsr_statistics_init}
use bsreadrepeater.TimedEvents.{bsr_timed_events_init}
use bsreadrepeater.Zmq.{attempt, timers_destroy, poller_destroy, Request, ctx_term, Sock}

module _ {F : Type 0} (w : Outside F) (fmt : Format F) (parse : JsonParser) where
  -- The session when the set-up begins.
  abbrev pub counted_session : Start w fmt parse → Repeater F → Session F
  counted_session st r =
      (on_statistics (bsr_statistics_init w.floats st.first_clock st.second_clock) r).1.session

module _ {F : Type 0} (w : Outside F) (fmt : Format F) (parse : JsonParser) (k : Sock)
    (c : CloseSucceeds w.env) where
  -- The socket has been closed as often as it was opened.
  abbrev IsClosed : Session F → Type 0
  IsClosed s = IsOpen k 0 s.app.log

  cmdchn-IsAppOwned :
      (s : Session F) → IsAccounted w fmt parse k s → IsAppOwned k 0 (cleanup_bsr_cmdchn w s).1.app
  unfolding cleanup_bsr_cmdchn attempt opens closes
  cmdchn-IsAppOwned s o = by_socket s.chn.socket refl
    where
      by_socket :
          (x : Option Sock) → s.chn.socket ≡ x → IsAppOwned k 0 (cleanup_bsr_cmdchn w s).1.app
      by_socket none e = ground (arith, o, e)
      by_socket (some sock) e = ground (arith, o, e, c s.app.log sock)

  list-IsClosed :
      (a : App F) → IsAppOwned k 0 a → IsOpen k 0 (cleanup_struct_handler_list w a).1.log
  unfolding cleanup_struct_handler_list
  list-IsClosed a o = cleanup_all-IsOpen w k c a.handlers a.stats 0 a.log o

  attempted-IsClosed :
      (b : Bool) (r : Request)
      → is_close_of k r ≡ false
      → (s : Session F) → IsClosed s
      → IsClosed (if b then on_app (on_app_log (attempt w.env r)) s else (ok, s)).1
  attempted-IsClosed true r e s o = attempt-KeepsOpen w.env k r e 0 s.app.log o
  attempted-IsClosed false r e s o = o

  poller-IsClosed :
      (made : Made) (s : Session F) → IsClosed s → IsClosed (cleanup_bsr_poller w made s)
  unfolding cleanup_bsr_poller
  poller-IsClosed made s o =
      attempted-IsClosed made.timers timers_destroy refl _
        (attempted-IsClosed made.poller poller_destroy refl s o)

  channel-IsAppOwned :
      (made : Made) (s : Session F)
      → made.cmdhandler ≡ true
      → IsAccounted w fmt parse k s
      → IsAppOwned k 0 (if made.cmdhandler then cleanup_bsr_cmdchn w s else (ok, s)).1.app
  channel-IsAppOwned made s m o = rw m (cmdchn-IsAppOwned s o)

  tear_down-IsClosed :
      (made : Made) (s : Session F)
      → made.cmdhandler ≡ true
      → IsAccounted w fmt parse k s
      → IsClosed (tear_down w made s)
  unfolding tear_down
  tear_down-IsClosed made s m o =
      let a = (if made.cmdhandler then cleanup_bsr_cmdchn w s else (ok, s)).1 in
      attempted-IsClosed made.ctx ctx_term refl _ (
        poller-IsClosed made (on_app (cleanup_struct_handler_list w) a).1
          (list-IsClosed a.app (channel-IsAppOwned made s m o)))

  -- Once the loop has ended.
  abbrev ClosedIfOver : Status × Repeater F → Type 0
  ClosedIfOver x = x.0 ≢ running → IsClosed x.1.session

  cleaned-IsClosed :
      (r : Repeater F) (made : Made) (x : Status × Repeater F)
      → made.cmdhandler ≡ true
      → IsAccounted w fmt parse k x.1.session
      → ClosedIfOver (cleaned w fmt parse r made x)
  cleaned-IsClosed r made (running, t) m o = λ e. absurd (e refl)
  cleaned-IsClosed r made (ended, t) m o = λ e. tear_down-IsClosed made t.session m o
  cleaned-IsClosed r made (returned x, t) m o = λ e. tear_down-IsClosed made t.session m o

  loop_from-IsClosed :
      (is : List Round) (r : Repeater F) (x : Step w)
      → x.0 ≡ ok
      → IsSound x.2.app
      → IsAccounted w fmt parse k x.2
      → x.1.cmdhandler ≡ true
      → ClosedIfOver (loop_from w fmt parse is r x)
  loop_from-IsClosed is r (ok, made, s) e i o m =
      cleaned-IsClosed r made (run_rounds w fmt parse is (record r { session = s })) m
        (run_rounds-IsAccounted w fmt parse k c is (record r { session = s }) i o)
  loop_from-IsClosed is r (fail, made, s) e i o m = absurd cc
  loop_from-IsClosed is r (fault, made, s) e i o m = absurd cc

  empty-IsUnbound :
      (s : Session F)
      → s.app.handlers ≡ []
      → s.app.log ≡ []
      → s.chn.socket ≡ none
      → IsUnbound w fmt parse k s
  unfolding opens closes
  empty-IsUnbound s h l u = (rw (h, l, u) refl, u)

  -- Take a thread of the repeater that begins with no handler, no command socket and no call made, whose
  -- set-up returns 0, and in which `zmq_close` succeeds. Once the thread has returned, by an exit command,
  -- by its limits or with an error, each socket has been closed as often as it was opened, whatever
  -- commands and messages arrived and whatever else failed. The memory that `malloc` gives for a queue
  -- has its twelve slots.
  pub bsrep_run_inner-closes :
      (st : Start w fmt parse) (is : List Round) (r : Repeater F) (addr : Bytes)
      → HasSlots w st.memreq_memory
      → r.session.app.handlers ≡ []
      → r.session.app.log ≡ []
      → r.session.chn.socket ≡ none
      → r.bsrep.cmd_addr ≡ some addr
      → (set_up w addr st.fd st.startup_memory st.memreq_memory
          (counted_session w fmt parse st r)).0
        ≡ ok
      → (bsrep_run_inner w fmt parse st is r).0 ≢ running
      → let log = (bsrep_run_inner w fmt parse st is r).1.session.app.log in
        opens k log ≡ closes k log
  unfolding bsrep_run_inner bsr_statistics_init bsr_timed_events_init
  bsrep_run_inner-closes st is r addr slots h l u a e over = omega (arith, closed over)
    where
      counted : Repeater F
      counted = (on_statistics (bsr_statistics_init w.floats st.first_clock st.second_clock) r).1

      empty-IsSound : IsSound counted.session.app
      empty-IsSound = record {
        handlers_sound = subst AllSound (sym h) tt;
        ids = subst (Ascending 0 r.session.app.next_id) (sym h) tt;
        calm = refl;
      }

      closed : ClosedIfOver (bsrep_run_inner w fmt parse st is r)
      closed =
          let made = set_up w addr st.fd st.startup_memory st.memreq_memory counted.session in
          let owned =
            set_up-IsSetUp w fmt parse k addr st.fd st.startup_memory st.memreq_memory
              counted.session (empty-IsUnbound counted.session h l u) e in
          subst
            (λ x. ClosedIfOver (elim x as (λ y. Status × Repeater F) [
              | none ↦ (returned fault, counted)
              | some b ↦
                  loop_from w fmt parse is counted
                    (set_up w b st.fd st.startup_memory st.memreq_memory counted.session)
            ]))
            (sym a)
            (loop_from-IsClosed is counted made e
              (set_up-IsSound w addr st.fd st.startup_memory st.memreq_memory counted.session slots
                empty-IsSound)
              owned.0 owned.1)
