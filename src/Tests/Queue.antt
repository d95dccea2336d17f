-- ===== src/Tests/Queue.antt =====
-- The queue of commands, the startup file, timed events, splitting, hexadecimal text and options.
use bsreadrepeater.Base.{
  Bytes, pos, ◌++◌, false, ◌≤◌, ◌∷◌, true, none, [], length, ◌⊎◌, List, min, ◌≡◌, ◌+◌, refl, fail,
  arith, some, ◌<◌,
}
use bsreadrepeater.Hex.{of_hex, to_hex, to_hex_roundtrip}
use bsreadrepeater.Memreq.{Shared, bsr_memreq_add_cmd}
use bsreadrepeater.Memreq.Order.{add_cmd, run_order, run, all_taken, event, Op, through}
use bsreadrepeater.Memreq.Ring.{contents, is_free, IsValid, add_cmd_lem}
use bsreadrepeater.Sockopts.{set_pull_sock_opts, set_push_sock_opts}
use bsreadrepeater.Sockopts.Effect.{option_of, set_pull_sock_opts_lem, set_push_sock_opts_lem}
use bsreadrepeater.Split.{bsr_str_split}
use bsreadrepeater.Split.Fields.{bsr_str_split-InCommand, InCommand, bsr_str_split_roundtrip}
use bsreadrepeater.Split.Join.{join, fields, split_texts, commas, split_texts-eq-fields}
use bsreadrepeater.Startup.{
  reading, Running, bufcap, read_in, Input, read_bytes, bsr_startupcmd_handle_event, handle_reading,
  send_lines, handle_sending,
}
use bsreadrepeater.Startup.Lines.{line_commands}
use bsreadrepeater.Startup.Order.{run_events_order, run_events, all_got}
use bsreadrepeater.Tests.Setup.{demo_time, demo_env, demo_events}
use bsreadrepeater.Text.{codes, c_string}
use bsreadrepeater.TimedEvents.{bsr_timed_events_most_recent_key}
use bsreadrepeater.TimedEvents.Order.{now_of, most_recent_key_lem, IsNext, all_after, is_sorted}
use bsreadrepeater.Zmq.{
  zmq_sndbuf, zmq_maxmsgsize, zmq_tcp_keepalive, sent_on, zmq_rcvhwm, zmq_linger, zmq_rcvbuf,
  zmq_sndhwm, send_checked,
}

abbrev pub demo_queue : Shared
demo_queue = record {
  self = record {
    cmdaddr = codes "tcp://cmd";
    sock_out = 4;
    state = 0;
    outq = [] ∷ [] ∷ [] ∷ [] ∷ [] ∷ [] ∷ [] ∷ [] ∷ [] ∷ [] ∷ [] ∷ codes "stats" ∷ [];
    outq_wp = 0;
    outq_rp = 11;
    outq_len = 1;
  };
  log = [];
}

pub queue-IsValid : IsValid demo_queue.self
queue-IsValid = record {
  slots = refl;
  write_in = omega arith;
  read_in = omega arith;
  filled = omega arith;
  write_at = refl;
  state_in = omega arith;
}

add_cmd_lem_example :
    let r = bsr_memreq_add_cmd demo_env (codes "exit") demo_queue in
    IsValid r.1.self
    × ((is_free demo_queue.self (codes "exit") ≡ true)
          × (contents r.1.self ≡ contents demo_queue.self ++ codes "exit" ∷ [])
        ⊎ (is_free demo_queue.self (codes "exit") ≡ false) × (r ≡ (fail, demo_queue)))
add_cmd_lem_example = add_cmd_lem demo_env (codes "exit") demo_queue queue-IsValid

abbrev some_ops : List Op
some_ops = add_cmd (codes "exit") ∷ event 2 ∷ event 1 ∷ event 2 ∷ []

run_order_example :
    through demo_env 4 (run demo_env some_ops demo_queue)
    ≡ through demo_env 4 demo_queue ++ all_taken demo_env some_ops demo_queue
run_order_example = run_order demo_env some_ops demo_queue queue-IsValid

abbrev pub demo_startup : Running
demo_startup = record {
  self = record {
    cmdaddr = codes "tcp://cmd";
    fd = some 3;
    sock_out = 5;
    text = [];
    state = reading;
  };
  log = [];
}

abbrev some_inputs : List Input
some_inputs =
    record { from_file = read_bytes (codes "#x\nstats\nex"); can_send = true }
    ∷ record { from_file = read_bytes []; can_send = true }
    ∷ []

run_events_order_example :
    let t = (run_events demo_env some_inputs demo_startup).1 in
    (sent_on 5 t.log ++ line_commands t.self.text
      ≡ sent_on 5 [] ++ line_commands ([] ++ all_got demo_env some_inputs demo_startup))
    × (length t.self.text ≤ bufcap)
unfolding run_events bsr_startupcmd_handle_event handle_reading read_in handle_sending send_lines
    c_string send_checked
run_events_order_example = run_events_order demo_env some_inputs demo_startup (omega arith) refl

most_recent_key_lem_example :
    IsNext demo_events.tree
      (now_of demo_events demo_time)
      (bsr_timed_events_most_recent_key demo_events demo_time)
unfolding is_sorted all_after
most_recent_key_lem_example = most_recent_key_lem demo_events demo_time refl

split_texts-eq-fields_example :
    split_texts (codes "add-output,a,b") ≡ fields 7 (codes "add-output,a,b")
split_texts-eq-fields_example = split_texts-eq-fields (codes "add-output,a,b")

bsr_str_split_roundtrip_example :
    (join (split_texts (codes "add-output,a,b")) ≡ codes "add-output,a,b")
    × (length (bsr_str_split (codes "add-output,a,b"))
        ≡ min 7 (commas (codes "add-output,a,b")) + 1)
    × (length (bsr_str_split (codes "add-output,a,b")) ≤ 8)
bsr_str_split_roundtrip_example = bsr_str_split_roundtrip (codes "add-output,a,b")

bsr_str_split-InCommand_example : InCommand 14 (bsr_str_split (codes "add-output,a,b"))
bsr_str_split-InCommand_example = bsr_str_split-InCommand (codes "add-output,a,b")

pull_options :
    let log' = (set_pull_sock_opts demo_env 1 (pos 5) (pos 6) (pos 7) []).1 in
    (option_of 1 zmq_maxmsgsize log' ≡ some (pos 5))
    × (option_of 1 zmq_rcvhwm log' ≡ some (pos 6))
    × (option_of 1 zmq_rcvbuf log' ≡ some (pos 7))
    × (option_of 1 zmq_linger log' ≡ some (pos 800))
    × (option_of 1 zmq_tcp_keepalive log' ≡ some (pos 1))
unfolding set_pull_sock_opts
pull_options = set_pull_sock_opts_lem demo_env 1 (pos 5) (pos 6) (pos 7) [] refl

push_options :
    let log' = (set_push_sock_opts demo_env 1 (pos 6) (pos 7) []).1 in
    (option_of 1 zmq_sndhwm log' ≡ some (pos 6))
    × (option_of 1 zmq_sndbuf log' ≡ some (pos 7))
    × (option_of 1 zmq_maxmsgsize log' ≡ some (pos 20971520))
    × (option_of 1 zmq_linger log' ≡ some (pos 800))
unfolding set_push_sock_opts
push_options = set_push_sock_opts_lem demo_env 1 (pos 6) (pos 7) [] refl

to_hex_roundtrip_example :
    (2 ≤ 3)
      × ((text : Bytes) × (to_hex (1 ∷ 255 ∷ 16 ∷ []) 2 ≡ some text)
          × (length text ≡ 4)
          × (of_hex text ≡ 1 ∷ 255 ∷ []))
    ⊎ (3 < 2) × (to_hex (1 ∷ 255 ∷ 16 ∷ []) 2 ≡ none)
to_hex_roundtrip_example =
    to_hex_roundtrip (1 ∷ 255 ∷ 16 ∷ []) 2 (omega arith, (omega arith, (omega arith, tt)))
