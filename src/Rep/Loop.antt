-- ===== src/Rep/Loop.antt =====
-- The main loop, `for (uint64_t i4 = 0;; i4 += 1)` of `bsrep_run_inner`, round by round.
use bsreadrepeater.Base.{
  ◌>>◌, ℤ, false, ◌&&◌, Option, ltb, Action, pos, done, fail, fault, length, Bool, ◌||◌,
  if◌then◌else◌, ok, Outcome, ℕ, ◌∷◌, some, none, add64, [], true, List, leb,
}
use bsreadrepeater.Channel.{Outside, Statistics}
use bsreadrepeater.Command.Deliver.{handlers_handle_msg, Arrival, Owner}
use bsreadrepeater.Command.Reply.{Format}
use bsreadrepeater.DummySource.{try_sends}
use bsreadrepeater.Handlers.{on_app_log, lookup_id, dummy_source, Handler}
use bsreadrepeater.JsonCommand.{JsonParser}
use bsreadrepeater.Rep.{update_rep, on_repeater_app, Bsrep, on_session, Repeater, on_statistics}
use bsreadrepeater.Rep.Due.{timed_events_loop}
use bsreadrepeater.Split.{time_delta_mu, Timespec}
use bsreadrepeater.Stats.{bsr_statistics_print_now, bsr_statistics_ms_since_last_print}
use bsreadrepeater.Zmq.{timers_execute, call}

-- An entry of `evs`; the user data is `none` for NULL.
pub record PollEvent : Type 0 where
  pub owner : Option Owner
  pub flags : ℕ
  pub arrival : Arrival

-- What `zmq_poller_wait_all` gives: events, at most as many as asked for, -1 with EAGAIN, or another
-- error.
pub data Polled : Type 0 where
  got_events : List PollEvent → Polled
  timed_out : Polled
  poll_error : Polled

-- What the outside gives in a round: whether another thread has set `stop`, the clock before and after
-- the wait and after the events, the handlers whose timers are due, and the clock of the statistics.
pub record Round : Type 0 where
  pub stop_requested : Bool
  pub polled : Polled
  pub before_wait : Timespec
  pub after_wait : Timespec
  pub after_events : Timespec
  pub timers_due : Bool
  pub fired : List ℕ
  pub stats_clock : Timespec
  pub printed : Timespec

-- How the loop stands after some rounds: it has ended by its tests, it has returned an error, or it
-- goes on.
pub data Status : Type 0 where
  ended : Status
  returned : Outcome → Status
  running : Status

abbrev pub evsmax : ℕ
evsmax = 64

abbrev pub print_dt_ms : ℕ
print_dt_ms = 4000

abbrev pub event_count : Polled → ℕ
event_count (got_events evs) = length evs
event_count _ = 0

module _ {F : Type 0} (w : Outside F) (fmt : Format F) (parse : JsonParser) where
  open w use {env, floats}

  -- An average and its variance take in a time in microseconds.
  unfoldable pub track : ℤ → F × F → F × F
  track dt (ema, emv) =
      let k = floats.literal 5 2 in
      let d1 = floats.sub (floats.of_ℤ dt) ema in
      (
        floats.add ema (floats.mul k d1),
        floats.mul (floats.sub (floats.of_ℤ (pos 1)) k)
            (floats.add emv (floats.mul (floats.mul k d1) d1)),
      )

  unfoldable pub track_wait : Timespec → Timespec → Statistics F → Statistics F
  unfolding track time_delta_mu
  track_wait ts1 ts2 s =
      let (ema, emv) = track (time_delta_mu ts1 ts2) (s.poll_wait_ema, s.poll_wait_emv) in
      record s { poll_wait_ema = ema; poll_wait_emv = emv }

  unfoldable pub track_process : Timespec → Timespec → Statistics F → Statistics F
  unfolding track time_delta_mu
  track_process ts2 ts3 s =
      let (ema, emv) = track (time_delta_mu ts2 ts3) (s.process_ema, s.process_emv) in
      record s { process_ema = ema; process_emv = emv }

  -- `timer_cb_1` of a dummy source; the result of `try_sends` is not looked at. The timer of a handler
  -- that has been freed is a fault, and a dummy source in the list has its socket.
  abbrev pub fired_on : ℕ → Handler F → Repeater F → Outcome × Repeater F
  fired_on id (dummy_source d) r = elim d.sock [
    | none ↦ (fault, r)
    | some sock ↦
        (let (o, p, log) = try_sends env sock 3 r.ptype r.session.app.log in
          (
            ok,
            record r {
              ptype = p;
              session = record r.session { app = record r.session.app { log = log } };
            },
          ))
  ]
  fired_on id _ r = (fault, r)

  unfoldable pub timer_cb_1 : ℕ → Action (Repeater F)
  unfolding try_sends
  timer_cb_1 id r = elim (lookup_id id r.session.app.handlers) [
    | none ↦ (fault, r)
    | some h ↦ fired_on id h r
  ]

  unfoldable pub run_timers : List ℕ → Action (Repeater F)
  run_timers [] = done
  run_timers (id ∷ ids) = timer_cb_1 id >> run_timers ids

  -- `zmq_timers_execute` with the callbacks that it makes, and EMSG.
  unfoldable pub execute_timers : Round → Action (Repeater F)
  unfolding run_timers call
  execute_timers i =
      if i.timers_due
      then run_timers i.fired >> on_repeater_app (on_app_log (call env timers_execute))
      else done

  -- After an event: an exit command ends the loop over the events, and so does a failure.
  abbrev pub and_events : Action (Repeater F) → Outcome × Repeater F → Outcome × Repeater F
  and_events k (ok, r) =
      if r.session.exiting then update_rep (λ b. record b { stop = true }) r else k r
  and_events k (o, r) = (o, r)

  -- `cmd` is set to 0 for each event; only the command handler writes to it.
  unfoldable pub handle_one : PollEvent → Timespec → Action (Repeater F)
  unfolding handlers_handle_msg
  handle_one ev tspoll r =
      let cleared = record r { session = record r.session { exiting = false } } in
      elim ev.owner [
        | none ↦ (fail, cleared)
        | some owner ↦
            on_session (handlers_handle_msg w fmt parse owner ev.flags ev.arrival tspoll) cleared
      ]

  unfoldable pub handle_events : List PollEvent → Timespec → Action (Repeater F)
  handle_events [] tspoll r = (ok, r)
  handle_events (ev ∷ evs) tspoll r = and_events (handle_events evs tspoll) (handle_one ev tspoll r)

  abbrev pub after_poll : Polled → Timespec → Action (Repeater F)
  after_poll (got_events evs) tspoll =
      on_statistics (λ s. record s { poll_evs_total = add64 s.poll_evs_total (length evs) })
      >> handle_events evs tspoll
  after_poll timed_out tspoll = done
  after_poll poll_error tspoll = λ r. (fail, r)

  unfoldable pub print_statistics : Round → Statistics F → Statistics F
  unfolding bsr_statistics_ms_since_last_print bsr_statistics_print_now
  print_statistics i s =
      if ltb print_dt_ms (bsr_statistics_ms_since_last_print i.stats_clock s)
      then bsr_statistics_print_now i.printed s
      else s

  -- The body of the loop behind its two tests, step by step.
  abbrev pub count_full : Round → Statistics F → Statistics F
  count_full i s =
      if leb evsmax (event_count i.polled) then record s { evs_max = add64 s.evs_max 1 } else s

  abbrev pub count_round : Round → Action (Repeater F)
  count_round i =
      update_rep (λ b. record b { polls_count = add64 b.polls_count 1 })
      >> on_statistics (count_full i)

  abbrev pub await_events : Round → Action (Repeater F)
  await_events i = count_round i >> on_statistics (track_wait i.before_wait i.after_wait)

  abbrev pub fire_timers : Round → Action (Repeater F)
  fire_timers i = await_events i >> execute_timers i

  abbrev pub take_events : Round → Action (Repeater F)
  take_events i = fire_timers i >> after_poll i.polled i.after_wait

  abbrev pub measure_events : Round → Action (Repeater F)
  measure_events i = take_events i >> on_statistics (track_process i.after_wait i.after_events)

  abbrev pub report_round : Round → Action (Repeater F)
  report_round i = measure_events i >> on_statistics (print_statistics i)

  unfoldable pub one_round : Round → Action (Repeater F)
  unfolding track_wait track_process execute_timers print_statistics timed_events_loop
  one_round i = report_round i >> (λ r. (ok, timed_events_loop w i.after_events r))

  -- The tests at the head of the loop.
  unfoldable pub is_over : Bsrep → Bool
  is_over b =
      (ltb 0 b.do_polls_max && leb b.do_polls_max b.polls_count)
      || (b.stop && leb b.do_polls_min b.polls_count)

  -- `stop` is read once, after another thread may have set it.
  abbrev pub at_head : Round → Repeater F → Repeater F
  at_head i r = record r { bsrep = record r.bsrep { stop = r.bsrep.stop || i.stop_requested } }

  abbrev pub and_rounds :
      (Repeater F → Status × Repeater F) → Outcome × Repeater F → Status × Repeater F
  and_rounds k (ok, r) = k r
  and_rounds k (o, r) = (returned o, r)

  unfoldable pub run_rounds : List Round → Repeater F → Status × Repeater F
  unfolding is_over
  run_rounds [] r = (running, r)
  run_rounds (i ∷ is) r =
      let next = and_rounds (λ r'. run_rounds is r') (one_round i (at_head i r)) in
      if is_over (at_head i r).bsrep then (ended, at_head i r) else next
