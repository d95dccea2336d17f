-- ===== src/Rep/Invariant.antt =====
-- What the rounds of the main loop keep: an invariant of the session that the calls in a round keep.
use bsreadrepeater.Base.{
  Option, fault, [], ◌>>◌, ◌≡◌, length, List, done, false, some, ℕ, arith, true, if◌then◌else◌,
  Outcome, none, add64, refl, Action, Preserves, ◌∷◌, >>-Preserves, fail, ok, Bool,
}
use bsreadrepeater.Channel.{Outside, Statistics}
use bsreadrepeater.Command.{Session, on_app}
use bsreadrepeater.Command.Deliver.{Owner, handlers_handle_msg, Arrival}
use bsreadrepeater.Command.Reply.{Format}
use bsreadrepeater.DummySource.{try_sends}
use bsreadrepeater.Handlers.{on_app_log, dummy_source, lookup_id, startup, source, memreq, Handler}
use bsreadrepeater.JsonCommand.{JsonParser}
use bsreadrepeater.Rep.{update_rep, Repeater, on_repeater_app, on_session, on_statistics}
use bsreadrepeater.Rep.Due.{enable_due, timed_events_loop}
use bsreadrepeater.Rep.Loop.{
  fired_on, one_round, timed_out, execute_timers, got_events, Polled, Round, track_wait, count_full,
  await_events, and_events, measure_events, report_round, poll_error, run_timers, fire_timers,
  timer_cb_1, take_events, after_poll, at_head, is_over, PollEvent, Status, run_rounds, handle_one,
  track_process, print_statistics, and_rounds, handle_events, ended, count_round,
}
use bsreadrepeater.Split.{Timespec}
use bsreadrepeater.Zmq.{call, Sock, timers_execute}

module _ {F : Type 0} (w : Outside F) (fmt : Format F) (parse : JsonParser) where
  -- The calls of a round that reach the session. Under the invariant no timed event is waiting.
  pub record IsKeptByCalls (P : Session F → Type 0) : Type 0 where
    pub calm : (s : Session F) → P s → s.app.stats.timed_events.tree ≡ []
    pub cleared : (s : Session F) → P s → P (record s { exiting = false })
    pub measured :
        (f : Statistics F → Statistics F)
        → ((s : Statistics F) → (f s).timed_events ≡ s.timed_events)
        → (s : Session F) → P s
        → P (record s { app = record s.app { stats = f s.app.stats } })
    pub fired :
        (sock : Sock) (ptype : ℕ) (s : Session F)
        → P s
        → P (record s { app = record s.app { log = (try_sends w.env sock 3 ptype s.app.log).2 } })
    pub executed : Preserves P (on_app (on_app_log (call w.env timers_execute)))
    pub handled :
        (owner : Owner) (events : ℕ) (arrival : Arrival) (tspoll : Timespec)
        → Preserves P (handlers_handle_msg w fmt parse owner events arrival tspoll)

module _ {F : Type 0} (w : Outside F) (fmt : Format F) (parse : JsonParser) (P : Session F → Type 0)
    (kept : IsKeptByCalls w fmt parse P) where
  abbrev Holds : Repeater F → Type 0
  Holds r = P r.session

  abbrev Kept : Action (Repeater F) → Type 0
  Kept = Preserves Holds

  then-Kept : (m k : Action (Repeater F)) → Kept m → Kept k → Kept (m >> k)
  then-Kept = >>-Preserves Holds

  -- Statistics that leave the timed events alone.
  on_statistics-Kept :
      (f : Statistics F → Statistics F)
      → ((s : Statistics F) → (f s).timed_events ≡ s.timed_events)
      → Kept (on_statistics f)
  on_statistics-Kept f h r i = kept.measured f h r.session i

  fired_on-Kept : (id : ℕ) (h : Handler F) → Kept (fired_on w fmt parse id h)
  fired_on-Kept id (source m) r i = i
  fired_on-Kept id (startup m) r i = i
  fired_on-Kept id (memreq m) r i = i
  fired_on-Kept id (dummy_source d) r i = by_sock d.sock
    where
      by_sock :
          (s : Option Sock)
          → Holds
              (elim s as (λ x. Outcome × Repeater F) [
                | none ↦ (fault, r)
                | some sock ↦
                    (let (o, p, log) = try_sends w.env sock 3 r.ptype r.session.app.log in
                      (
                        ok,
                        record r {
                          ptype = p;
                          session = record r.session { app = record r.session.app { log = log } };
                        },
                      ))
              ]).1
      by_sock none = i
      by_sock (some sock) = kept.fired sock r.ptype r.session i

  timer_cb_1-Kept : (id : ℕ) → Kept (timer_cb_1 w fmt parse id)
  unfolding timer_cb_1
  timer_cb_1-Kept id r i = by_lookup (lookup_id id r.session.app.handlers)
    where
      by_lookup :
          (x : Option (Handler F))
          → Holds
              (elim x as (λ y. Outcome × Repeater F) [
                | none ↦ (fault, r)
                | some h ↦ fired_on w fmt parse id h r
              ]).1
      by_lookup none = i
      by_lookup (some h) = fired_on-Kept id h r i

  run_timers-Kept : (ids : List ℕ) → Kept (run_timers w fmt parse ids)
  unfolding run_timers
  run_timers-Kept [] = λ r i. i
  run_timers-Kept (id ∷ ids) =
      then-Kept (timer_cb_1 w fmt parse id) (run_timers w fmt parse ids) (timer_cb_1-Kept id)
        (run_timers-Kept ids)

  execute_timers-Kept : (i : Round) → Kept (execute_timers w fmt parse i)
  unfolding execute_timers
  execute_timers-Kept i r s = by_due i.timers_due
    where
      by_due :
          (b : Bool)
          → Holds
              ((if b
                  then run_timers w fmt parse i.fired
                    >> on_repeater_app (on_app_log (call w.env timers_execute))
                  else done)
                r).1
      by_due true =
          then-Kept (run_timers w fmt parse i.fired)
            (on_repeater_app (on_app_log (call w.env timers_execute))) (run_timers-Kept i.fired)
            (λ q h. kept.executed q.session h) r s
      by_due false = s

  handle_one-Kept : (ev : PollEvent) (tspoll : Timespec) → Kept (handle_one w fmt parse ev tspoll)
  unfolding handle_one
  handle_one-Kept ev tspoll r i = by_owner ev.owner
    where
      cleared : Repeater F
      cleared = record r { session = record r.session { exiting = false } }

      by_owner :
          (x : Option Owner)
          → Holds
              (elim x as (λ y. Outcome × Repeater F) [
                | none ↦ (fail, cleared)
                | some owner ↦
                    on_session
                      (handlers_handle_msg w fmt parse owner ev.flags ev.arrival tspoll)
                      cleared
              ]).1
      by_owner none = kept.cleared r.session i
      by_owner (some owner) =
          kept.handled owner ev.flags ev.arrival tspoll cleared.session (kept.cleared r.session i)

  and_events-Kept :
      (k : Action (Repeater F)) (x : Outcome × Repeater F)
      → Kept k
      → Holds x.1
      → Holds (and_events w fmt parse k x).1
  and_events-Kept k (ok, r) p i = by_exit r.session.exiting
    where
      by_exit :
          (b : Bool) → Holds (if b then update_rep (λ y. record y { stop = true }) r else k r).1
      by_exit true = i
      by_exit false = p r i
  and_events-Kept k (fail, r) p i = i
  and_events-Kept k (fault, r) p i = i

  handle_events-Kept :
      (evs : List PollEvent) (tspoll : Timespec) → Kept (handle_events w fmt parse evs tspoll)
  unfolding handle_events
  handle_events-Kept [] tspoll r i = i
  handle_events-Kept (ev ∷ evs) tspoll r i =
      and_events-Kept (handle_events w fmt parse evs tspoll) (handle_one w fmt parse ev tspoll r)
        (handle_events-Kept evs tspoll) (handle_one-Kept ev tspoll r i)

  after_poll-Kept : (p : Polled) (tspoll : Timespec) → Kept (after_poll w fmt parse p tspoll)
  after_poll-Kept (got_events evs) tspoll =
      then-Kept
        (on_statistics (λ s. record s { poll_evs_total = add64 s.poll_evs_total (length evs) }))
        (handle_events w fmt parse evs tspoll) (on_statistics-Kept _ (λ s. refl))
        (handle_events-Kept evs tspoll)
  after_poll-Kept timed_out tspoll = λ r i. i
  after_poll-Kept poll_error tspoll = λ r i. i

  -- No timed event is waiting, so the loop over them does nothing.
  timed_events_loop-idle :
      (now : Timespec) (r : Repeater F) → Holds r → timed_events_loop w now r ≡ r
  unfolding timed_events_loop enable_due
  timed_events_loop-idle now r i = rw (kept.calm r.session i) refl

  print_statistics-events :
      (i : Round) (s : Statistics F)
      → (print_statistics w fmt parse i s).timed_events ≡ s.timed_events
  unfolding print_statistics
  print_statistics-events i s = ground arith

  count_full-events :
      (i : Round) (s : Statistics F) → (count_full w fmt parse i s).timed_events ≡ s.timed_events
  count_full-events i s = ground arith

  fire_timers-Kept : (i : Round) → Kept (fire_timers w fmt parse i)
  unfolding track_wait
  fire_timers-Kept i =
      then-Kept (await_events w fmt parse i) (execute_timers w fmt parse i)
        (then-Kept (count_round w fmt parse i)
          (on_statistics (track_wait w fmt parse i.before_wait i.after_wait))
          (then-Kept (update_rep (λ b. record b { polls_count = add64 b.polls_count 1 }))
            (on_statistics (count_full w fmt parse i)) (λ r s. s)
            (on_statistics-Kept (count_full w fmt parse i) (count_full-events i)))
          (on_statistics-Kept _ (λ s. refl)))
        (execute_timers-Kept i)

  report_round-Kept : (i : Round) → Kept (report_round w fmt parse i)
  unfolding track_process
  report_round-Kept i =
      then-Kept (measure_events w fmt parse i) (on_statistics (print_statistics w fmt parse i))
        (then-Kept (take_events w fmt parse i)
          (on_statistics (track_process w fmt parse i.after_wait i.after_events))
          (then-Kept (fire_timers w fmt parse i) (after_poll w fmt parse i.polled i.after_wait)
            (fire_timers-Kept i) (after_poll-Kept i.polled i.after_wait))
          (on_statistics-Kept _ (λ s. refl)))
        (on_statistics-Kept _ (print_statistics-events i))

  one_round-Kept : (i : Round) → Kept (one_round w fmt parse i)
  unfolding one_round
  one_round-Kept i =
      then-Kept (report_round w fmt parse i) (λ r. (ok, timed_events_loop w i.after_events r))
        (report_round-Kept i) (λ r s. rw (timed_events_loop-idle i.after_events r s) s)

  and_rounds-Kept :
      (k : Repeater F → Status × Repeater F) (x : Outcome × Repeater F)
      → ((r : Repeater F) → Holds r → Holds (k r).1)
      → Holds x.1
      → Holds (and_rounds w fmt parse k x).1
  and_rounds-Kept k (ok, r) p i = p r i
  and_rounds-Kept k (fail, r) p i = i
  and_rounds-Kept k (fault, r) p i = i

  -- However many rounds happen, the invariant holds after them.
  pub run_rounds-Holds :
      (is : List Round) (r : Repeater F) → P r.session → P (run_rounds w fmt parse is r).1.session
  unfolding run_rounds
  run_rounds-Holds [] r s = s
  run_rounds-Holds (i ∷ is) r s = by_test (is_over w fmt parse head.bsrep) (
      and_rounds-Kept (λ r'. run_rounds w fmt parse is r') (one_round w fmt parse i head)
        (λ r' s'. run_rounds-Holds is r' s') (one_round-Kept i head s))
    where
      head : Repeater F
      head = at_head w fmt parse i r

      next : Status × Repeater F
      next =
          and_rounds w fmt parse (λ r'. run_rounds w fmt parse is r') (one_round w fmt parse i head)

      by_test : (b : Bool) → Holds next.1 → Holds (if b then (ended, head) else next).1
      by_test true k = s
      by_test false k = k
