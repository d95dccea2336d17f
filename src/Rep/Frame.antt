-- ===== src/Rep/Frame.antt =====
-- A round counts itself, and otherwise changes `struct bsrep` by `stop` alone.
use bsreadrepeater.Base.{
  List, Outcome, Bool, ◌≡◌, ◌>>◌, suc, done, ok, zero, none, ℕ, fault, false, add64, refl, arith,
  true, ◌∷◌, if◌then◌else◌, Option, some, >>-Preserves, [], fail, Preserves, length, Action,
  >>-reaches,
}
use bsreadrepeater.Channel.{Outside}
use bsreadrepeater.Command.Reply.{Format}
use bsreadrepeater.Handlers.{Handler, on_app_log, source, lookup_id, dummy_source, memreq, startup}
use bsreadrepeater.JsonCommand.{JsonParser}
use bsreadrepeater.Rep.{on_repeater_app, Bsrep, Repeater, update_rep, on_statistics}
use bsreadrepeater.Rep.Due.{events_of, remove_event, enable_source, enable_due, timed_events_loop}
use bsreadrepeater.Rep.Loop.{
  fired_on, poll_error, PollEvent, timed_out, execute_timers, Round, Polled, handle_one, and_events,
  handle_events, got_events, after_poll, run_timers, timer_cb_1, fire_timers, one_round,
  measure_events, print_statistics, track_process, track_wait, take_events, report_round,
  await_events,
}
use bsreadrepeater.Split.{Timespec}
use bsreadrepeater.TimedEvents.{bsr_timed_events_most_recent_key, TimedEvent, nnodes}
use bsreadrepeater.Zmq.{timers_execute, call}

module _ {F : Type 0} (w : Outside F) (fmt : Format F) (parse : JsonParser) where
  -- A property of `struct bsrep` that stopping keeps.
  abbrev pub Stoppable : (Bsrep → Type 0) → Type 0
  Stoppable Q = (b : Bsrep) → Q b → Q (record b { stop = true })

  module _ (Q : Bsrep → Type 0) (stoppable : Stoppable Q) where
    abbrev OnBsrep : Repeater F → Type 0
    OnBsrep r = Q r.bsrep

    abbrev Kept : Action (Repeater F) → Type 0
    Kept = Preserves OnBsrep

    then-Kept : (m k : Action (Repeater F)) → Kept m → Kept k → Kept (m >> k)
    then-Kept = >>-Preserves OnBsrep

    fired_on-bsrep : (id : ℕ) (h : Handler F) → Kept (fired_on w fmt parse id h)
    fired_on-bsrep id (source m) r i = i
    fired_on-bsrep id (startup m) r i = i
    fired_on-bsrep id (memreq m) r i = i
    fired_on-bsrep id (dummy_source d) r i = ground (arith, i)

    timer_cb_1-bsrep : (id : ℕ) → Kept (timer_cb_1 w fmt parse id)
    unfolding timer_cb_1
    timer_cb_1-bsrep id r i = by_lookup (lookup_id id r.session.app.handlers)
      where
        by_lookup :
            (x : Option (Handler F))
            → OnBsrep
                (elim x as (λ y. Outcome × Repeater F) [
                  | none ↦ (fault, r)
                  | some h ↦ fired_on w fmt parse id h r
                ]).1
        by_lookup none = i
        by_lookup (some h) = fired_on-bsrep id h r i

    run_timers-bsrep : (ids : List ℕ) → Kept (run_timers w fmt parse ids)
    unfolding run_timers
    run_timers-bsrep [] = λ r i. i
    run_timers-bsrep (id ∷ ids) =
        then-Kept (timer_cb_1 w fmt parse id) (run_timers w fmt parse ids) (timer_cb_1-bsrep id)
          (run_timers-bsrep ids)

    pub execute_timers-bsrep : (i : Round) → Kept (execute_timers w fmt parse i)
    unfolding execute_timers
    execute_timers-bsrep i r s = by_due i.timers_due
      where
        by_due :
            (b : Bool)
            → OnBsrep
                ((if b
                    then run_timers w fmt parse i.fired
                      >> on_repeater_app (on_app_log (call w.env timers_execute))
                    else done)
                  r).1
        by_due true =
            then-Kept (run_timers w fmt parse i.fired)
              (on_repeater_app (on_app_log (call w.env timers_execute))) (run_timers-bsrep i.fired)
              (λ x q. q) r s
        by_due false = s

    handle_one-bsrep :
        (ev : PollEvent) (tspoll : Timespec) → Kept (handle_one w fmt parse ev tspoll)
    unfolding handle_one
    handle_one-bsrep ev tspoll r i = ground (arith, i)

    and_events-bsrep :
        (k : Action (Repeater F)) (x : Outcome × Repeater F)
        → Kept k
        → OnBsrep x.1
        → OnBsrep (and_events w fmt parse k x).1
    and_events-bsrep k (ok, r) p i = by_exit r.session.exiting
      where
        by_exit :
            (b : Bool) → OnBsrep (if b then update_rep (λ y. record y { stop = true }) r else k r).1
        by_exit true = stoppable r.bsrep i
        by_exit false = p r i
    and_events-bsrep k (fail, r) p i = i
    and_events-bsrep k (fault, r) p i = i

    handle_events-bsrep :
        (evs : List PollEvent) (tspoll : Timespec) → Kept (handle_events w fmt parse evs tspoll)
    unfolding handle_events
    handle_events-bsrep [] tspoll r i = i
    handle_events-bsrep (ev ∷ evs) tspoll r i =
        and_events-bsrep (handle_events w fmt parse evs tspoll) (handle_one w fmt parse ev tspoll r)
          (handle_events-bsrep evs tspoll) (handle_one-bsrep ev tspoll r i)

    pub after_poll-bsrep : (p : Polled) (tspoll : Timespec) → Kept (after_poll w fmt parse p tspoll)
    after_poll-bsrep (got_events evs) tspoll =
        then-Kept
          (on_statistics (λ s. record s { poll_evs_total = add64 s.poll_evs_total (length evs) }))
          (handle_events w fmt parse evs tspoll) (λ r q. q) (handle_events-bsrep evs tspoll)
    after_poll-bsrep timed_out tspoll = λ r i. i
    after_poll-bsrep poll_error tspoll = λ r i. i

  pub enable_due-bsrep :
      (now : Timespec) (n : ℕ) (r : Repeater F) → (enable_due w now n r).bsrep ≡ r.bsrep
  unfolding enable_due enable_source
  enable_due-bsrep now zero r = refl
  enable_due-bsrep now (suc n) r =
      by_next (bsr_timed_events_most_recent_key (events_of w now r) now)
        (λ key ev. enable_due-bsrep now n (enable_source w now ev.addr (remove_event w now key r)))
    where
      by_next :
          (x : Option (ℕ × TimedEvent))
          → ((key : ℕ) (ev : TimedEvent)
              → (enable_due w now n (enable_source w now ev.addr (remove_event w now key r))).bsrep
                ≡ r.bsrep)
          → (elim x as (λ y. Repeater F) [
            | none ↦ r
            | some (key, ev) ↦
                enable_due w now n (enable_source w now ev.addr (remove_event w now key r))
          ]).bsrep
            ≡ r.bsrep
      by_next none k = refl
      by_next (some (key, ev)) k = k key ev

  -- What holds of `struct bsrep` once the round has been counted holds at the end of the round.
  pub one_round-bsrep :
      (Q : Bsrep → Type 0) (i : Round) (r : Repeater F)
      → Stoppable Q
      → Q (record r.bsrep { polls_count = add64 r.bsrep.polls_count 1 })
      → Q (one_round w fmt parse i r).1.bsrep
  unfolding one_round track_wait track_process timed_events_loop
  one_round-bsrep Q i r st q =
      >>-reaches P (report_round w fmt parse i) (λ t. (ok, timed_events_loop w i.after_events t)) r
        (>>-reaches P (measure_events w fmt parse i)
          (on_statistics (print_statistics w fmt parse i)) r
          (>>-reaches P (take_events w fmt parse i)
            (on_statistics (track_process w fmt parse i.after_wait i.after_events)) r
            (>>-reaches P (fire_timers w fmt parse i) (after_poll w fmt parse i.polled i.after_wait)
              r
              (>>-reaches P (await_events w fmt parse i) (execute_timers w fmt parse i) r q
                (execute_timers-bsrep Q st i))
              (after_poll-bsrep Q st i.polled i.after_wait))
            (λ t h. h))
          (λ t h. h))
        (λ t h.
          rw (enable_due-bsrep i.after_events (nnodes (events_of w i.after_events t).tree) t) h)
    where
      P : Repeater F → Type 0
      P t = Q t.bsrep
