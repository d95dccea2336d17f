-- ===== src/Channel.antt =====
-- src/bsr_chnhandler.c: the handler of one source. This file has its state and what its operations
-- share; the operations are in the modules below.
pub mod Open
pub mod Outputs
pub mod Headers
pub mod Forward
pub mod Receive
pub mod Ready
pub mod Service
pub mod Owned
pub mod Untouched
use bsreadrepeater.Base.{ℕ, none, ok, Bytes, Option, some, Action, ℤ, Bool, List, fail}
use bsreadrepeater.Ema.{FloatOps, EmaExt, Ema}
use bsreadrepeater.Headers.{MainHeader, HeaderParser, Codecs, ChannelMap}
use bsreadrepeater.Split.{Timespec}
use bsreadrepeater.TimedEvents.{TimedEvents}
use bsreadrepeater.Zmq.{Env, Log, Sock}

-- `struct sockout`. The `int` flags are Booleans; `addr` is the string in the array.
pub record Sockout : Type 0 where
  pub sock : Sock
  pub sndhwm : ℤ
  pub sndbuf : ℤ
  pub addr : Bytes
  pub in_multipart : Bool
  pub block_current_multipart : Bool
  pub sent_count : ℕ
  pub sent_bytes : ℕ
  pub eagain : ℕ
  pub eagain_multipart : ℕ

-- `struct bsr_statistics`.
pub record Statistics (F : Type 0) : Type 0 where
  pub received : ℕ
  pub sentok : ℕ
  pub eagain : ℕ
  pub eagain_multipart : ℕ
  pub recv_buf_too_small : ℕ
  pub recv_bytes : ℕ
  pub sent_bytes : ℕ
  pub last_print_ts : Timespec
  pub datetime_idle_check_last : Timespec
  pub poll_wait_ema : F
  pub poll_wait_emv : F
  pub process_ema : F
  pub process_emv : F
  pub input_reopened : ℕ
  pub timed_events : TimedEvents
  pub evs_max : ℕ
  pub poll_evs_total : ℕ

-- `struct bsr_chnhandler`, without the borrowed pointers and the array `channels`, which nothing
-- fills. `none` is NULL. `state` is RECV = 1.
pub record Chnhandler (F : Type 0) : Type 0 where
  pub addr_inp : Bytes
  pub inp_msgmax : ℤ
  pub inp_rcvhwm : ℤ
  pub inp_rcvbuf : ℤ
  pub state : ℕ
  pub more_last : Bool
  pub mpc : ℕ
  pub do_parse_header : Bool
  pub mpmsgc : ℕ
  pub mpmsglen : ℕ
  pub sock_inp : Option Sock
  pub socks_out : List Sockout
  pub buf : Option Bytes
  pub dh_compr : ℕ
  pub printed_compr_unsup : ℕ
  pub last_remember_channels : Timespec
  pub chnmap : Option (ChannelMap F)
  pub main_header : Option MainHeader
  pub channel_count : ℕ
  pub ts_recv_last : Timespec
  pub ts_main_header_last : ℕ
  pub received : ℕ
  pub mhparsed : ℕ
  pub dhparsed : ℕ
  pub dhdecompr : ℕ
  pub sentok : ℕ
  pub eagain : ℕ
  pub eagain_multipart : ℕ
  pub recv_bytes : ℕ
  pub sent_bytes : ℕ
  pub bsread_errors : ℕ
  pub json_parse_errors : ℕ
  pub data_header_lz4_count : ℕ
  pub data_header_bslz4_count : ℕ
  pub input_reopened : ℕ
  pub throttling_enable_count : ℕ
  pub timestamp_out_of_range_count : ℕ
  pub unexpected_frames_count : ℕ
  pub mpmsglen_ema : Ema F
  pub msg_dt_ema : Ema F
  pub msg_emit_age : EmaExt F
  pub ts_final_part_last : Timespec
  pub input_disabled : Bool
  pub throttling : Bool
  pub block_current_mpm : Bool

-- A handler, the statistics that it shares with the others, and the log of the calls.
pub record Ctx (F : Type 0) : Type 0 where
  pub self : Chnhandler F
  pub stats : Statistics F
  pub log : Log

-- What the handlers call outside of this part of the program.
pub record Outside (F : Type 0) : Type 0 where
  pub env : Env
  pub floats : FloatOps F
  pub parser : HeaderParser F
  pub codecs : Codecs
  -- the bytes, and the handler, that a `malloc` hands out unwritten
  pub junk : Bytes
  pub memory : Chnhandler F

module _ {F : Type 0} where
  abbrev pub on_log : Action Log → Action (Ctx F)
  on_log m c = let (o, l) = m c.log in (o, record c { log = l })

  abbrev pub update : (Chnhandler F → Chnhandler F) → Action (Ctx F)
  update f c = (ok, record c { self = f c.self })

  abbrev pub update_stats : (Statistics F → Statistics F) → Action (Ctx F)
  update_stats f c = (ok, record c { stats = f c.stats })

  -- Calls on the input socket. libzmq refuses the first of them, with ENOTSOCK, if the socket is NULL.
  abbrev pub with_input : (Sock → Action (Ctx F)) → Action (Ctx F)
  with_input m c = elim c.self.sock_inp [ none ↦ (fail, c) | some sock ↦ m sock c ]
