-- ===== src/Tests/Setup.antt =====
-- A world to run the code in: every call succeeds, a socket is numbered by the calls made before it,
-- and numbers stand for floats.
use bsreadrepeater.Base.{
  ℕ, Bytes, pos, false, ◌∷◌, ◌*◌, true, none, negsuc, [], length, ◌-◌, ltb, ◌+◌, some,
}
use bsreadrepeater.Channel.{Statistics, Ctx, Chnhandler, Sockout, Outside}
use bsreadrepeater.Command.{Session}
use bsreadrepeater.Command.Reply.{Format}
use bsreadrepeater.Ema.{Ema, EmaExt, FloatOps}
use bsreadrepeater.Handlers.{source, App}
use bsreadrepeater.Headers.{MainHeader}
use bsreadrepeater.Split.{Timespec}
use bsreadrepeater.Text.{codes}
use bsreadrepeater.TimedEvents.{TimedEvents}
use bsreadrepeater.Zmq.{Env, accepted, Sock}

abbrev pub epoch : Timespec
epoch = record { sec = 0; nsec = 0 }

abbrev pub demo_env : Env
demo_env = record {
  socket = λ log type. some (length log);
  answer = λ log r. true;
  send = λ log sock b more. accepted (length b);
  monotonic = λ log. epoch;
  realtime = λ log. epoch;
}

abbrev pub demo_floats : FloatOps ℕ
demo_floats = record {
  of_ℤ = λ z. elim z [ pos n ↦ n | negsuc n ↦ 0 ];
  literal = λ m e. m;
  infinity = 1000000;
  neg_infinity = 0;
  add = λ x y. x + y;
  sub = λ x y. x - y;
  mul = λ x y. x * y;
  lt = λ x y. ltb x y;
  of_micros = λ x. x;
  above = λ x m e. ltb m x;
  micros_to_0_0099 = λ x. 0;
}

abbrev demo_header : MainHeader
demo_header = record { compr = 0; pulse = 0; timestamp = 0 }

abbrev demo_ema : Ema ℕ
demo_ema = record { k = 0; ema = 0; emv = 0; update_count = 0 }

abbrev demo_ext : EmaExt ℕ
demo_ext = record { k = 0; ema = 0; emv = 0; least = 0; most = 0; update_count = 0 }

-- A source in service, with two outputs, that has seen one whole message.
abbrev pub demo_output : Sock → Bytes → Sockout
demo_output sock addr = record {
  sock = sock;
  sndhwm = pos 140;
  sndbuf = pos 131072;
  addr = addr;
  in_multipart = false;
  block_current_multipart = false;
  sent_count = 0;
  sent_bytes = 0;
  eagain = 0;
  eagain_multipart = 0;
}

abbrev pub demo_source : Chnhandler ℕ
demo_source = record {
  addr_inp = codes "tcp://a";
  inp_msgmax = pos 20971520;
  inp_rcvhwm = pos 200;
  inp_rcvbuf = pos 2097152;
  state = 1;
  more_last = false;
  mpc = 0;
  do_parse_header = false;
  mpmsgc = 1;
  mpmsglen = 0;
  sock_inp = some 1;
  socks_out = demo_output 2 (codes "tcp://b") ∷ demo_output 3 (codes "tcp://c") ∷ [];
  buf = some [];
  dh_compr = 0;
  printed_compr_unsup = 0;
  last_remember_channels = epoch;
  chnmap = some [];
  main_header = some demo_header;
  channel_count = 0;
  ts_recv_last = epoch;
  ts_main_header_last = 0;
  received = 0;
  mhparsed = 0;
  dhparsed = 0;
  dhdecompr = 0;
  sentok = 0;
  eagain = 0;
  eagain_multipart = 0;
  recv_bytes = 0;
  sent_bytes = 0;
  bsread_errors = 0;
  json_parse_errors = 0;
  data_header_lz4_count = 0;
  data_header_bslz4_count = 0;
  input_reopened = 0;
  throttling_enable_count = 0;
  timestamp_out_of_range_count = 0;
  unexpected_frames_count = 0;
  mpmsglen_ema = demo_ema;
  msg_dt_ema = demo_ema;
  msg_emit_age = demo_ext;
  ts_final_part_last = epoch;
  input_disabled = false;
  throttling = false;
  block_current_mpm = false;
}

abbrev pub demo : Outside ℕ
demo = record {
  env = demo_env;
  floats = demo_floats;
  parser = record {
    main = λ b. some (record { code = negsuc 0; header = demo_header });
    channels = λ b t m h. record { code = negsuc 0; channel_count = 0; channel_map = m };
  };
  codecs = record { bshuf_decompress_lz4 = λ b. none; lz4_decompress_safe = λ b n. none };
  junk = [];
  memory = demo_source;
}

abbrev pub demo_time : Timespec
demo_time = record { sec = 1; nsec = 0 }

abbrev pub demo_events : TimedEvents
demo_events = record {
  tree = (5, record { addr = codes "tcp://a" }) ∷ (9, record { addr = codes "tcp://z" }) ∷ [];
  ts_init = epoch;
}

abbrev pub demo_stats : Statistics ℕ
demo_stats = record {
  received = 0;
  sentok = 0;
  eagain = 0;
  eagain_multipart = 0;
  recv_buf_too_small = 0;
  recv_bytes = 0;
  sent_bytes = 0;
  last_print_ts = epoch;
  datetime_idle_check_last = epoch;
  poll_wait_ema = 0;
  poll_wait_emv = 0;
  process_ema = 0;
  process_emv = 0;
  input_reopened = 0;
  timed_events = demo_events;
  evs_max = 0;
  poll_evs_total = 0;
}

abbrev pub demo_ctx : Ctx ℕ
demo_ctx = record { self = demo_source; stats = demo_stats; log = [] }

abbrev pub demo_app : App ℕ
demo_app = record {
  handlers = record { id = 0; handler = source demo_source } ∷ [];
  next_id = 1;
  stats = demo_stats;
  log = [];
}

abbrev pub demo_session : Session ℕ
demo_session = record {
  chn = record { socket = some 9; addr = codes "tcp://cmd" };
  app = demo_app;
  buf = [];
  exiting = false;
}

abbrev pub demo_format : Format ℕ
demo_format = record { fixed = λ x. []; sqrt = λ x. x; utc = λ n. []; source_json = λ s. [] }
