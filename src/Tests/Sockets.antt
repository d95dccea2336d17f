-- ===== src/Tests/Sockets.antt =====
-- The account of the sockets in concrete runs, and the theorems on it at concrete inputs.
use bsreadrepeater.Base.{none, ℕ, some, ◌≡◌, [], List, refl, ok, ◌∷◌, Bytes, true, false, fail}
use bsreadrepeater.Channel.{Outside}
use bsreadrepeater.Channel.Open.{
  init_header, bsr_chnhandler_connect, close_outputs, open_input, cleanup_bsr_chnhandler,
  init_pointers,
}
use bsreadrepeater.Channel.Outputs.{bind_output, bsr_chnhandler_add_out}
use bsreadrepeater.Command.{bsr_cmdchn_init, cleanup_bsr_cmdchn, message, reply, received_into}
use bsreadrepeater.Command.Accounted.{IsAccounted}
use bsreadrepeater.Command.Deliver.{command_handler, handlers_handle_msg}
use bsreadrepeater.Command.Dispatch.{
  branch_of, add_output_branch, run_branch, handle_message, bsr_cmdchn_handle_event,
  add_source_branch, command_loop,
}
use bsreadrepeater.Entry.{main_inner, Host, startup_file_of}
use bsreadrepeater.Entry.Closed.{main_inner-closes, initialised}
use bsreadrepeater.Handlers.{
  cleanup_all, cleanup_struct_handler_list, cleanup_struct_handler, with_source, add_output_cmd,
  handler_list_find_by_input_addr, handler_list_add, add_source_cmd, new_source, set_handler,
}
use bsreadrepeater.Memreq.{cleanup_struct_bsr_memreq, bsr_memreq_init}
use bsreadrepeater.Rep.{Repeater, bsrep_init}
use bsreadrepeater.Rep.Accounted.{run_rounds-IsAccounted}
use bsreadrepeater.Rep.Closed.{bsrep_run_inner-closes, counted_session}
use bsreadrepeater.Rep.Due.{enable_due}
use bsreadrepeater.Rep.Loop.{
  Round, ended, execute_timers, handle_events, is_over, run_rounds, one_round, PollEvent,
  handle_one, returned,
}
use bsreadrepeater.Rep.Setup.{
  cleanup_bsr_poller, bsrep_run_inner, set_up, add_memreq, add_startup, make_ctx, tear_down,
  make_poller, Start,
}
use bsreadrepeater.Rep.Thread.{Process}
use bsreadrepeater.Sockets.{opens, closes, CloseSucceeds, IsOpen}
use bsreadrepeater.Sockopts.Single.{req_rep_single-IsOpen, req_rep_single}
use bsreadrepeater.Split.{bsr_str_split}
use bsreadrepeater.Startup.{bsr_startupcmd_init, cleanup_struct_bsr_startupcmd}
use bsreadrepeater.Tests.Command.{no_parser}
use bsreadrepeater.Tests.Loop.{idle_rep, demo_start, round_of, loop_app, source_arrival, loop_rep}
use bsreadrepeater.Tests.Setup.{demo, demo_format, demo_env, epoch}
use bsreadrepeater.Text.{codes, c_string, strncmp_eq, copied}
use bsreadrepeater.Zmq.{attempt, call, poller_add_fd}

closes_all : CloseSucceeds demo_env
closes_all log s = refl

-- A thread that begins with nothing, and is to end after two rounds.
abbrev new_rep : Repeater ℕ
new_rep = record idle_rep {
  session = record idle_rep.session { chn = record { socket = none; addr = [] } };
}

-- A command arrives that adds a source, and later one that gives it an output.
abbrev command_event : Bytes → PollEvent
command_event text = record {
  owner = some command_handler;
  flags = 1;
  arrival = record source_arrival { commands = message text ∷ [] };
}

abbrev three_rounds : List Round
three_rounds =
    round_of (command_event (codes "add-source,tcp://a") ∷ [])
    ∷ round_of (command_event (codes "add-output,tcp://a,tcp://b") ∷ [])
    ∷ round_of []
    ∷ []

ends_run : (bsrep_run_inner demo demo_format no_parser demo_start three_rounds new_rep).0 ≡ ended
unfolding bsrep_run_inner set_up make_ctx make_poller bsr_cmdchn_init add_startup add_memreq
    bsr_startupcmd_init bsr_memreq_init run_rounds one_round is_over execute_timers handle_events
    call enable_due handle_one bsr_cmdchn_handle_event command_loop handle_message run_branch
    branch_of received_into add_source_branch bsr_str_split add_source_cmd
    handler_list_find_by_input_addr new_source init_pointers init_header bsr_chnhandler_connect
    reply add_output_branch add_output_cmd with_source bsr_chnhandler_add_out handlers_handle_msg
    handler_list_add bind_output strncmp_eq c_string open_input
ends_run = refl

sets_up :
    (set_up demo
      (codes "tcp://cmd")
      (some 3)
      demo_start.startup_memory
      demo_start.memreq_memory
      (counted_session demo demo_format no_parser demo_start new_rep)).0
    ≡ ok
unfolding set_up make_ctx make_poller bsr_cmdchn_init add_startup add_memreq bsr_startupcmd_init
    bsr_memreq_init call
sets_up = refl

bsrep_run_inner-closes_example :
    let log =
      (bsrep_run_inner demo demo_format no_parser demo_start three_rounds
        new_rep).1.session.app.log in
    opens 5 log ≡ closes 5 log
bsrep_run_inner-closes_example =
    bsrep_run_inner-closes demo demo_format no_parser 5 closes_all demo_start three_rounds new_rep
      (codes "tcp://cmd") refl refl refl refl refl sets_up (λ e. let q = ends_run in cc)

-- The command socket is the one that was opened first, and it has been closed once.
one_closed :
    let log =
      (bsrep_run_inner demo demo_format no_parser demo_start three_rounds
        new_rep).1.session.app.log in
    (opens 5 log ≡ 1) × (closes 5 log ≡ 1)
unfolding bsrep_run_inner set_up make_ctx make_poller bsr_cmdchn_init add_startup add_memreq
    bsr_startupcmd_init bsr_memreq_init run_rounds one_round is_over execute_timers handle_events
    call attempt opens closes tear_down cleanup_struct_handler_list cleanup_all
    cleanup_struct_handler cleanup_struct_bsr_startupcmd cleanup_struct_bsr_memreq
    cleanup_bsr_cmdchn cleanup_bsr_poller enable_due handle_one bsr_cmdchn_handle_event command_loop
    handle_message run_branch branch_of received_into add_source_branch bsr_str_split add_source_cmd
    handler_list_find_by_input_addr new_source init_pointers init_header bsr_chnhandler_connect
    reply add_output_branch add_output_cmd with_source bsr_chnhandler_add_out handlers_handle_msg
    handler_list_add bind_output strncmp_eq c_string open_input cleanup_bsr_chnhandler close_outputs
    set_handler
one_closed = (refl, refl)

-- The startup file cannot be watched: the handler is freed, and its socket stays open.
abbrev leaky : Outside ℕ
leaky = record demo {
  env = record demo_env {
    answer = λ log r. elim r [ poller_add_fd fd interest ↦ false | _ ↦ true ];
  };
}

abbrev leaky_start : Start leaky demo_format no_parser
leaky_start = record {
  first_clock = demo_start.first_clock;
  second_clock = demo_start.second_clock;
  fd = some 3;
  startup_memory = demo_start.startup_memory;
  memreq_memory = demo_start.memreq_memory;
}

startup_leaks :
    let x = bsrep_run_inner leaky demo_format no_parser leaky_start [] new_rep in
    let log = x.1.session.app.log in (x.0 ≡ returned fail) × (opens 9 log ≡ 1) × (closes 9 log ≡ 0)
unfolding bsrep_run_inner set_up make_ctx make_poller bsr_cmdchn_init add_startup add_memreq
    bsr_startupcmd_init call attempt opens closes tear_down cleanup_struct_handler_list cleanup_all
    cleanup_bsr_cmdchn cleanup_bsr_poller
startup_leaks = (refl, refl, refl)

abbrev empty_rep : Repeater ℕ
empty_rep = record loop_rep {
  session = record new_rep.session {
    app = record loop_app { handlers = []; next_id = 0; log = [] };
  };
}

run_rounds-IsAccounted_example :
    IsAccounted demo demo_format no_parser 9
      (run_rounds demo demo_format no_parser three_rounds empty_rep).1.session
unfolding opens closes
run_rounds-IsAccounted_example =
    run_rounds-IsAccounted demo demo_format no_parser 9 closes_all three_rounds empty_rep
      (record { handlers_sound = tt; ids = tt; calm = refl }) refl

req_rep_single-IsOpen_example :
    IsOpen 1 0 (req_rep_single demo_env (codes "tcp://cmd") (codes "blabla") 6 []).1
unfolding opens closes
req_rep_single-IsOpen_example =
    req_rep_single-IsOpen demo_env 1 closes_all (codes "tcp://cmd") (codes "blabla") 6 0 [] refl

-- The thread is created but not named, so that it is joined by the clean-up.
abbrev nameless : Host
nameless = record {
  clock = epoch;
  first = some [];
  second = some [];
  created = true;
  named = false;
  joined = true;
  joined_late = true;
}

abbrev new_process : Process ℕ
new_process = record { repeater = new_rep; thread_created = false; thrret = ok }

abbrev willing : Host
willing = record nameless { named = true }

serves_and_ends :
    (bsrep_run_inner demo demo_format no_parser demo_start three_rounds
      (initialised demo demo_format no_parser willing
        (codes "tcp://cmd")
        []
        new_process).repeater).0
    ≡ ended
unfolding bsrep_run_inner set_up make_ctx make_poller bsr_cmdchn_init add_startup add_memreq
    bsr_startupcmd_init bsr_memreq_init run_rounds one_round is_over execute_timers handle_events
    call enable_due handle_one bsr_cmdchn_handle_event command_loop handle_message run_branch
    branch_of received_into add_source_branch bsr_str_split add_source_cmd
    handler_list_find_by_input_addr new_source init_pointers init_header bsr_chnhandler_connect
    reply add_output_branch add_output_cmd with_source bsr_chnhandler_add_out handlers_handle_msg
    handler_list_add bind_output strncmp_eq c_string open_input bsrep_init startup_file_of
serves_and_ends = refl

main_inner-closes_example :
    let log =
      (main_inner demo demo_format no_parser willing
        (codes "bsrep" ∷ codes "tcp://cmd" ∷ [])
        demo_start
        three_rounds
        new_process).1.repeater.session.app.log in
    opens 5 log ≡ closes 5 log
unfolding copied
main_inner-closes_example =
    main_inner-closes demo demo_format no_parser willing 5 closes_all (codes "bsrep")
      (codes "tcp://cmd") [] demo_start three_rounds new_process refl refl refl refl sets_up
      (λ e. let q = serves_and_ends in cc)
