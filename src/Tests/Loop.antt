-- ===== src/Tests/Loop.antt =====
-- The main loop: rounds, the end of the loop, timed events and the idle check.
use bsreadrepeater.Base.{
  fault, ◌≤◌, false, ◌≡◌, ℕ, ◌⊎◌, refl, ◌++◌, ok, arith, none, List, ◌+◌, some, true, [], ◌<◌, ◌≢◌,
  ◌∷◌, min,
}
use bsreadrepeater.Channel.{Statistics}
use bsreadrepeater.Channel.Outputs.{bsr_chnhandler_outputs_count}
use bsreadrepeater.Channel.Receive.{part}
use bsreadrepeater.Command.{bsr_cmdchn_init}
use bsreadrepeater.Command.Deliver.{listed, Arrival, deliver_listed}
use bsreadrepeater.Command.Removed.{removed_source_faults}
use bsreadrepeater.DummySource.{try_sends}
use bsreadrepeater.DummySource.Rounds.{try_sends_end}
use bsreadrepeater.Handlers.{
  App, source, handler_list_find_by_input_addr, remove_source_cmd, lookup_id, memreq,
}
use bsreadrepeater.Handlers.Sound.{IsSound}
use bsreadrepeater.Memreq.{outq_len_max, bsr_memreq_init}
use bsreadrepeater.Memreq.Drain.{exchanges, drain_lem}
use bsreadrepeater.Memreq.Order.{run}
use bsreadrepeater.Memreq.Ring.{contents, IsValid}
use bsreadrepeater.Rep.{Repeater, Bsrep}
use bsreadrepeater.Rep.Checked.{idle_source_check_lem}
use bsreadrepeater.Rep.Due.{events_of, timed_events_loop}
use bsreadrepeater.Rep.Ends.{run_rounds_end}
use bsreadrepeater.Rep.Exit.{exit_event, exit_ends}
use bsreadrepeater.Rep.Idle.{idle_source_check}
use bsreadrepeater.Rep.Later.{only_later, timed_events_loop_lem}
use bsreadrepeater.Rep.Loop.{
  run_rounds, Round, running, PollEvent, got_events, handle_events, is_over, one_round,
  execute_timers,
}
use bsreadrepeater.Rep.Queue.{remove_and_add_source}
use bsreadrepeater.Rep.Requeue.{refused, source_texts, remove_and_add_source_lem}
use bsreadrepeater.Rep.Setup.{
  Start, add_memreq, set_up, add_startup, make_ctx, bsrep_run_inner, make_poller,
}
use bsreadrepeater.Rep.Sound.{run_rounds-IsSound}
use bsreadrepeater.Rep.Started.{bsrep_run_inner-IsSound}
use bsreadrepeater.Startup.{read_error, Input, bsr_startupcmd_init}
use bsreadrepeater.Stats.{bsr_statistics_print_now, u32_max, bsr_statistics_ms_since_last_print}
use bsreadrepeater.Stats.Elapsed.{ms_since_last_print_lem}
use bsreadrepeater.Tests.Command.{no_parser}
use bsreadrepeater.Tests.Queue.{demo_queue, queue-IsValid, demo_startup}
use bsreadrepeater.Tests.Setup.{
  demo_stats, demo_format, demo_time, epoch, demo, demo_source, demo_env, demo_events, demo_session,
}
use bsreadrepeater.Tests.Source.{demo-IsReady}
use bsreadrepeater.Text.{codes, strncmp_eq}
use bsreadrepeater.TimedEvents.{bsr_timed_events_most_recent_key}
use bsreadrepeater.TimedEvents.Order.{all_after, is_sorted}
use bsreadrepeater.Zmq.{call, sent_on}

-- No timed event is waiting.
abbrev pub calm_stats : Statistics ℕ
calm_stats = record demo_stats { timed_events = record { tree = []; ts_init = epoch } }

-- A source and a queue.
abbrev pub loop_app : App ℕ
loop_app = record {
  handlers =
      record { id = 0; handler = source demo_source }
      ∷ record { id = 1; handler = memreq demo_queue.self }
      ∷ [];
  next_id = 2;
  stats = calm_stats;
  log = [];
}

pub loop_app-IsSound : IsSound loop_app
loop_app-IsSound = record {
  handlers_sound = ((demo-IsReady, omega arith), (queue-IsValid, tt));
  ids = (omega arith, omega arith, (omega arith, omega arith, tt));
  calm = refl;
}

abbrev demo_rep : Bsrep
demo_rep = record {
  cmd_addr = some (codes "tcp://cmd");
  startup_file = none;
  stop = false;
  do_polls_min = 0;
  do_polls_max = 2;
  polls_count = 0;
  ts_inactive_check_last = epoch;
  inactive_check_next_ix = 7;
}

abbrev pub loop_rep : Repeater ℕ
loop_rep = record { bsrep = demo_rep; session = record demo_session { app = loop_app }; ptype = 0 }

abbrev pub source_arrival : Arrival
source_arrival = record {
  commands = [];
  stack = [];
  parts = part (1 ∷ []) false ∷ [];
  from_startup = record { from_file = read_error; can_send = false };
}

-- An event on the source, and the command to remove it.
abbrev pub source_event : PollEvent
source_event = record { owner = some (listed 0); flags = 1; arrival = source_arrival }

abbrev pub round_of : List PollEvent → Round
round_of evs = record {
  stop_requested = false;
  polled = got_events evs;
  before_wait = epoch;
  after_wait = demo_time;
  after_events = demo_time;
  timers_due = false;
  fired = [];
  stats_clock = demo_time;
  printed = demo_time;
}

run_rounds-IsSound_example :
    IsSound
      (run_rounds demo demo_format no_parser
        (round_of (source_event ∷ []) ∷ round_of [] ∷ [])
        loop_rep).1.session.app
run_rounds-IsSound_example =
    run_rounds-IsSound demo demo_format no_parser (round_of (source_event ∷ []) ∷ round_of [] ∷ [])
      loop_rep loop_app-IsSound

run_rounds_end_example :
    let x =
      run_rounds demo demo_format no_parser
        (round_of (source_event ∷ []) ∷ round_of [] ∷ round_of [] ∷ [])
        loop_rep in
    (x.0 ≢ running) × (x.1.bsrep.polls_count ≤ 2)
run_rounds_end_example =
    run_rounds_end demo demo_format no_parser
      (round_of (source_event ∷ []) ∷ round_of [] ∷ round_of [] ∷ []) loop_rep (omega arith)
      (omega arith) (omega arith) (omega arith)

abbrev no_input : Input
no_input = record { from_file = read_error; can_send = false }

exit_ends_example :
    ((run_rounds demo demo_format no_parser
        (round_of (exit_event [] [] no_input 1 ∷ source_event ∷ []) ∷ round_of [] ∷ [])
        loop_rep).0
      ≢ running)
    × (handle_events demo demo_format no_parser
          (exit_event [] [] no_input 1 ∷ source_event ∷ [])
          demo_time
          loop_rep
        ≡ handle_events demo demo_format no_parser
            (exit_event [] [] no_input 1 ∷ [])
            demo_time
            loop_rep)
exit_ends_example =
    exit_ends demo demo_format no_parser [] [] no_input 1 (source_event ∷ [])
      (round_of (exit_event [] [] no_input 1 ∷ source_event ∷ [])) (round_of []) [] loop_rep refl
      (omega arith)

abbrev timed_rep : Repeater ℕ
timed_rep = record { bsrep = demo_rep; session = demo_session; ptype = 0 }

timed_events_loop_lem_example :
    let self = events_of demo demo_time (timed_events_loop demo demo_time timed_rep) in
    (bsr_timed_events_most_recent_key self demo_time ≡ none)
    × (self ≡ only_later demo demo_time demo_events)
unfolding is_sorted all_after
timed_events_loop_lem_example = timed_events_loop_lem demo demo_time timed_rep refl

removed_source_faults_example :
    let a' = (remove_source_cmd demo (codes "tcp://a") loop_app).1 in
    (lookup_id 1 a'.handlers ≡ lookup_id 1 loop_app.handlers)
    × (deliver_listed demo demo_format no_parser 0 1 source_arrival demo_time a' ≡ (fault, a'))
unfolding handler_list_find_by_input_addr strncmp_eq
removed_source_faults_example =
    removed_source_faults demo demo_format no_parser (codes "tcp://a")
      (record { id = 0; handler = source demo_source }) loop_app 1 1 source_arrival demo_time
      loop_app-IsSound refl (λ h. omega (arith, h))

remove_and_add_source_lem_example :
    let r = remove_and_add_source demo_env demo_source demo_queue in
    IsValid r.1.self
    × ((outq_len_max < 1 + (2 + bsr_chnhandler_outputs_count demo_source)) × (r ≡ (ok, demo_queue))
        ⊎ (r.0 ≡ ok)
          × (contents r.1.self ≡ contents demo_queue.self ++ source_texts demo_env demo_source)
        ⊎ (refused r.1.log ≡ true))
remove_and_add_source_lem_example =
    remove_and_add_source_lem demo_env demo_source demo_queue queue-IsValid

idle_source_check_lem_example :
    let t = (idle_source_check demo demo_time epoch loop_rep).1 in
    IsSound t.session.app × (t.bsrep.inactive_check_next_ix < 2)
idle_source_check_lem_example =
    idle_source_check_lem demo demo_time epoch loop_rep loop_app-IsSound (omega arith) (omega arith)

-- Before the thread has begun.
abbrev pub idle_rep : Repeater ℕ
idle_rep = record {
  bsrep = demo_rep;
  session = record demo_session { app = record loop_app { handlers = []; next_id = 0 } };
  ptype = 0;
}

abbrev pub demo_start : Start demo demo_format no_parser
demo_start = record {
  first_clock = epoch;
  second_clock = epoch;
  fd = some 3;
  startup_memory = demo_startup.self;
  memreq_memory = demo_queue.self;
}

goes_on :
    (bsrep_run_inner demo demo_format no_parser demo_start (round_of [] ∷ []) idle_rep).0 ≡ running
unfolding bsrep_run_inner set_up make_ctx make_poller bsr_cmdchn_init add_startup add_memreq
    bsr_startupcmd_init bsr_memreq_init run_rounds one_round is_over execute_timers handle_events
    call
goes_on = refl

bsrep_run_inner-IsSound_example :
    IsSound
      (bsrep_run_inner demo demo_format no_parser demo_start
        (round_of [] ∷ [])
        idle_rep).1.session.app
bsrep_run_inner-IsSound_example =
    bsrep_run_inner-IsSound demo demo_format no_parser demo_start (round_of [] ∷ []) idle_rep refl
      refl goes_on

-- The queue with one command runs empty, in a world where all goes well.
drain_lem_example :
    let t = run demo_env (exchanges 1) demo_queue in
    (t.self.outq_len ≡ 0)
    × (t.self.state ≡ 0)
    × (sent_on 4 t.log ≡ sent_on 4 [] ++ contents demo_queue.self)
drain_lem_example =
    drain_lem demo_env demo_queue (λ log r. refl) (λ log sock b more. refl) queue-IsValid refl

elapsed_at_one_second :
    (bsr_statistics_ms_since_last_print demo_time calm_stats ≡ min 1000 u32_max)
    × (bsr_statistics_ms_since_last_print demo_time (bsr_statistics_print_now demo_time calm_stats)
        ≡ 0)
elapsed_at_one_second = ms_since_last_print_lem demo_time calm_stats (omega arith) (omega arith)

two_more_rounds :
    (try_sends demo_env 7 5 1 [] ≡ try_sends demo_env 7 3 1 [])
    × ((try_sends demo_env 7 3 1 []).1 < 3)
two_more_rounds = try_sends_end demo_env 7 2 1 [] (omega arith)
