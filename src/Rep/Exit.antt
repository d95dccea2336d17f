-- ===== src/Rep/Exit.antt =====
-- The command `exit` ends the batch of events, and the main loop.
use bsreadrepeater.Base.{
  Bytes, Outcome, Option, refl, true, inl, Action, arith, ◌≤◌, add64, false, ◌≡◌, List,
  if◌then◌else◌, Bool, none, >>-eq-ok, some, ok, ℕ, fault, ◌>>◌, ◌≢◌, inr, [], ◌∷◌, fail,
}
use bsreadrepeater.Channel.{Outside}
use bsreadrepeater.Channel.Receive.{Received}
use bsreadrepeater.Command.{Session, message, received_into, reply}
use bsreadrepeater.Command.Deliver.{handlers_handle_msg, command_handler}
use bsreadrepeater.Command.Dispatch.{
  bsr_cmdchn_handle_event, command_loop, exit_branch, run_branch, branch_of,
}
use bsreadrepeater.Command.Exchange.{handle_message_lem}
use bsreadrepeater.Command.Reply.{Format}
use bsreadrepeater.JsonCommand.{JsonParser}
use bsreadrepeater.Rep.{Bsrep, on_statistics, Repeater}
use bsreadrepeater.Rep.Due.{events_of, timed_events_loop}
use bsreadrepeater.Rep.Frame.{one_round-bsrep, enable_due-bsrep}
use bsreadrepeater.Rep.Loop.{
  at_head, handle_events, and_rounds, print_statistics, one_round, Status, ended, track_process,
  after_poll, handle_one, and_events, fire_timers, report_round, is_over, take_events, running,
  run_rounds, got_events, PollEvent, Round, measure_events,
}
use bsreadrepeater.Split.{Timespec}
use bsreadrepeater.Startup.{Input}
use bsreadrepeater.Text.{starts_with, codes}
use bsreadrepeater.TimedEvents.{nnodes}
use bsreadrepeater.Zmq.{Sock, sent}

-- An event on the command socket with the command `exit`.
abbrev pub exit_event : Bytes → List Received → Input → ℕ → PollEvent
exit_event stack parts from_startup flags = record {
  owner = some command_handler;
  flags = flags;
  arrival = record {
    commands = message (codes "exit") ∷ [];
    stack = stack;
    parts = parts;
    from_startup = from_startup;
  };
}

module _ {F : Type 0} (w : Outside F) (fmt : Format F) (parse : JsonParser) where
  exit_branch-exits :
      (s : Session F) → let x = exit_branch w fmt parse s in (x.0 ≡ ok) × (x.1.exiting ≡ true)
  unfolding exit_branch reply
  exit_branch-exits s = by_socket s.chn.socket
    where
      by_socket :
          (k : Option Sock)
          → let x = elim k as (λ y. Outcome × Session F) [
            | none ↦ (ok, record s { exiting = true })
            | some sock ↦ (
              ok,
              record s {
                exiting = true;
                app = record s.app {
                  log =
                      sent sock
                        (codes "exit")
                        false
                        (w.env.send s.app.log sock (codes "exit") false)
                      ∷ s.app.log;
                };
              },
            )
          ] in
            (x.0 ≡ ok) × (x.1.exiting ≡ true)
      by_socket none = (refl, refl)
      by_socket (some sock) = (refl, refl)

  exit-exits :
      (junk : Bytes) (s : Session F)
      → let x = bsr_cmdchn_handle_event w fmt parse junk (message (codes "exit") ∷ []) s in
        (x.0 ≡ ok) × (x.1.exiting ≡ true)
  unfolding bsr_cmdchn_handle_event command_loop branch_of run_branch starts_with
  exit-exits junk s = elim (handle_message_lem w fmt parse (codes "exit") fresh_session) [
    | inl (l, e) ↦ rw e (
        let k =
          exit_branch-exits (record fresh_session { buf = received_into junk (codes "exit") }) in
        rw k.0 (refl, k.1))
    | inr (l, e) ↦ absurd (omega (arith, l))
  ]
    where
      fresh_session : Session F
      fresh_session = record s { buf = junk; exiting = false }

  -- An event that carries the command ends the batch, whatever comes behind it.
  batch_ends :
      (ev : PollEvent) (evs : List PollEvent) (tspoll : Timespec) (r : Repeater F)
      → (handle_one w fmt parse ev tspoll r).0 ≡ ok
      → (handle_one w fmt parse ev tspoll r).1.session.exiting ≡ true
      → let x = handle_events w fmt parse (ev ∷ evs) tspoll r in
        (x ≡ handle_events w fmt parse (ev ∷ []) tspoll r) × (x.0 ≡ ok) × (x.1.bsrep.stop ≡ true)
  unfolding handle_events
  batch_ends ev evs tspoll r = go (handle_one w fmt parse ev tspoll r)
    where
      go :
          (x : Outcome × Repeater F)
          → x.0 ≡ ok
          → x.1.session.exiting ≡ true
          → let y = and_events w fmt parse (handle_events w fmt parse evs tspoll) x in
            (y ≡ and_events w fmt parse (λ t. (ok, t)) x) × (y.0 ≡ ok) × (y.1.bsrep.stop ≡ true)
      go (ok, t) o e = rw e (refl, refl, refl)
      go (fail, t) o e = cc
      go (fault, t) o e = cc

  handle_one-exits :
      (stack : Bytes) (parts : List Received) (from_startup : Input) (flags : ℕ) (tspoll : Timespec)
      (r : Repeater F)
      → let x = handle_one w fmt parse (exit_event stack parts from_startup flags) tspoll r in
        (x.0 ≡ ok) × (x.1.session.exiting ≡ true)
  unfolding handle_one handlers_handle_msg
  handle_one-exits stack parts from_startup flags tspoll r =
      exit-exits stack (record r.session { exiting = false })

  abbrev Stopped : ℕ → ℕ → Bsrep → Type 0
  Stopped n m b = (b.polls_count ≡ n) × (b.do_polls_min ≡ m) × (b.stop ≡ true)

  Stopped-over : (n m : ℕ) (b : Bsrep) → m ≤ n → Stopped n m b → is_over w fmt parse b ≡ true
  unfolding is_over
  Stopped-over n m b l s = ground (arith, s)

  -- Stopped, if all calls so far returned 0.
  abbrev StopsIfOk : Outcome × Repeater F → Type 0
  StopsIfOk x = x.0 ≡ ok → x.1.bsrep.stop ≡ true

  then_stopped :
      (m k : Action (Repeater F)) (r : Repeater F)
      → StopsIfOk (m r)
      → ((t : Repeater F) → t.bsrep.stop ≡ true → (k t).1.bsrep.stop ≡ true)
      → StopsIfOk ((m >> k) r)
  then_stopped m k r s p h = let e = >>-eq-ok m k r h in rw e.1 (p (m r).1 (s e.0))

  round_stops :
      (ev : PollEvent) (evs : List PollEvent) (i : Round) (r : Repeater F)
      → i.polled ≡ got_events (ev ∷ evs)
      → ((tspoll : Timespec) (t : Repeater F)
          → (handle_events w fmt parse (ev ∷ evs) tspoll t).1.bsrep.stop ≡ true)
      → StopsIfOk (one_round w fmt parse i r)
  unfolding one_round track_process timed_events_loop
  round_stops ev evs i r e p =
      then_stopped (report_round w fmt parse i) (λ t. (ok, timed_events_loop w i.after_events t)) r
        (then_stopped (measure_events w fmt parse i)
          (on_statistics (print_statistics w fmt parse i)) r
          (then_stopped (take_events w fmt parse i)
            (on_statistics (track_process w fmt parse i.after_wait i.after_events)) r
            (λ h.
              let q =
                >>-eq-ok (fire_timers w fmt parse i) (after_poll w fmt parse i.polled i.after_wait)
                  r h in
              rw (q.1, e) (p i.after_wait _))
            (λ t h. h))
          (λ t h. h))
        (λ t h.
          rw
            (enable_due-bsrep w fmt parse i.after_events
              (nnodes (events_of w i.after_events t).tree) t)
            h)

  over_ends :
      (j : Round) (is : List Round) (r : Repeater F) (n m : ℕ)
      → m ≤ n
      → Stopped n m r.bsrep
      → (run_rounds w fmt parse (j ∷ is) r).0 ≢ running
  unfolding run_rounds
  over_ends j is r n m l s h = absurd (
      ended_lem
        (rw (Stopped-over n m (at_head w fmt parse j r).bsrep l (s.0, s.1, rw s.2 refl)) at h))
    where
      ended_lem : ended ≢ running
      ended_lem q = cc

  after_stop :
      (j : Round) (is : List Round) (n m : ℕ) (x : Outcome × Repeater F)
      → m ≤ n
      → (x.0 ≡ ok → Stopped n m x.1.bsrep)
      → (and_rounds w fmt parse (λ r'. run_rounds w fmt parse (j ∷ is) r') x).0 ≢ running
  after_stop j is n m (ok, r) l s = over_ends j is r n m l (s refl)
  after_stop j is n m (fail, r) l s = λ q. cc
  after_stop j is n m (fault, r) l s = λ q. cc

  round_Stopped :
      (stack : Bytes) (parts : List Received) (from_startup : Input) (flags : ℕ)
      (evs : List PollEvent) (i : Round) (r : Repeater F)
      → i.polled ≡ got_events (exit_event stack parts from_startup flags ∷ evs)
      → (one_round w fmt parse i r).0 ≡ ok
      → Stopped
          (add64 r.bsrep.polls_count 1)
          r.bsrep.do_polls_min
          (one_round w fmt parse i r).1.bsrep
  round_Stopped stack parts from_startup flags evs i r e o =
      (c.0, c.1, round_stops ev evs i r e stops o)
    where
      ev : PollEvent
      ev = exit_event stack parts from_startup flags

      Q : Bsrep → Type 0
      Q b = (b.polls_count ≡ add64 r.bsrep.polls_count 1) × (b.do_polls_min ≡ r.bsrep.do_polls_min)

      c : Q (one_round w fmt parse i r).1.bsrep
      c = one_round-bsrep w fmt parse Q i r (λ b h. h) (refl, refl)

      stops :
          (tspoll : Timespec) (t : Repeater F)
          → (handle_events w fmt parse (ev ∷ evs) tspoll t).1.bsrep.stop ≡ true
      stops tspoll t =
          let x = handle_one-exits stack parts from_startup flags tspoll t in
          (batch_ends ev evs tspoll t x.0 x.1).2

  -- After a batch whose first event carries the command `exit`, and with at least `do_polls_min` rounds
  -- counted then, the loop does not go on: it has returned an error, or ends by its tests at the head of
  -- the next round. The events behind in the batch are not handled.
  pub exit_ends :
      (stack : Bytes) (parts : List Received) (from_startup : Input) (flags : ℕ)
      (evs : List PollEvent) (i j : Round) (is : List Round) (r : Repeater F)
      → i.polled ≡ got_events (exit_event stack parts from_startup flags ∷ evs)
      → r.bsrep.do_polls_min ≤ add64 r.bsrep.polls_count 1
      → ((run_rounds w fmt parse (i ∷ j ∷ is) r).0 ≢ running)
        × (handle_events w fmt parse
              (exit_event stack parts from_startup flags ∷ evs)
              i.after_wait
              r
            ≡ handle_events w fmt parse
                (exit_event stack parts from_startup flags ∷ [])
                i.after_wait
                r)
  unfolding run_rounds
  exit_ends stack parts from_startup flags evs i j is r e l = (
    by_test (is_over w fmt parse head.bsrep) (
        after_stop j is (add64 r.bsrep.polls_count 1) r.bsrep.do_polls_min
          (one_round w fmt parse i head) l
          (round_Stopped stack parts from_startup flags evs i head e)),
    (let x = handle_one-exits stack parts from_startup flags i.after_wait r in
        (batch_ends (exit_event stack parts from_startup flags) evs i.after_wait r x.0 x.1).0),
  )
    where
      head : Repeater F
      head = at_head w fmt parse i r

      next : Status × Repeater F
      next =
          and_rounds w fmt parse (λ r'. run_rounds w fmt parse (j ∷ is) r')
            (one_round w fmt parse i head)

      by_test : (b : Bool) → next.0 ≢ running → (if b then (ended, head) else next).0 ≢ running
      by_test true k = λ q. cc
      by_test false k = k
