-- ===== src/Zmq.antt =====
-- The calls into libzmq and the answers that they get. libzmq is not part of the repository: what
-- it answers is the parameter `Env`, which may depend on every call made before. The log of the
-- calls, newest first, is the state that the program's side shares with it.
use bsreadrepeater.Base.{
  ℕ, ℤ, Bool, true, false, List, ◌∷◌, Option, Bytes, Outcome, ok, fail, Action, ◌==◌, if◌then◌else◌,
  ◌++◌, [],
}
use bsreadrepeater.Split.{Timespec}

abbrev pub Sock : Type 0
Sock = ℕ

pub data SockType : Type 0 where
  pull push rep req : SockType

pub data SockOpt : Type 0 where
  zmq_linger zmq_ipv6 zmq_maxmsgsize zmq_handshake_ivl zmq_rcvhwm zmq_sndhwm zmq_rcvbuf zmq_sndbuf :
      SockOpt
  zmq_rcvtimeo : SockOpt
  zmq_tcp_keepalive zmq_tcp_keepalive_idle zmq_tcp_keepalive_intvl zmq_tcp_keepalive_cnt : SockOpt
  zmq_heartbeat_ivl zmq_heartbeat_timeout zmq_heartbeat_ttl : SockOpt

-- The `events` of a poller item.
pub data Interest : Type 0 where
  nothing pollin pollout : Interest

-- The calls that return 0, or -1 with `errno` set.
pub data Request : Type 0 where
  setsockopt : Sock → SockOpt → ℤ → Request
  connect bind : Sock → Bytes → Request
  close poller_remove : Sock → Request
  poller_add poller_modify : Sock → Interest → Request
  poller_add_fd poller_modify_fd : ℤ → Interest → Request
  poller_remove_fd : ℤ → Request
  -- `zmq_recv` of a reply of which nothing is read
  recv_reply : Sock → Request
  msg_init msg_copy : Request
  -- `zmq_getsockopt` of ZMQ_EVENTS
  get_events : Request
  timers_add timers_cancel timers_execute : Request
  -- `zmq_ctx_set`, and the ends of the context, the poller and the timers
  ctx_set ctx_term poller_destroy timers_destroy : Request
  -- any `malloc` or container constructor that may return NULL
  alloc : Request

-- What `zmq_msg_send` and `zmq_send` return: a byte count, or -1 with EAGAIN or another `errno`.
pub data SendResult : Type 0 where
  accepted : ℕ → SendResult
  again : SendResult
  broken : SendResult

abbrev pub is_accepted : SendResult → Bool
is_accepted (accepted n) = true
is_accepted _ = false

pub data Event : Type 0 where
  opened : SockType → Sock → Event
  not_opened : SockType → Event
  called : Request → Bool → Event
  sent : Sock → Bytes → Bool → SendResult → Event

abbrev pub Log : Type 0
Log = List Event

pub record Env : Type 0 where
  pub socket : Log → SockType → Option Sock
  pub answer : Log → Request → Bool
  pub send : Log → Sock → Bytes → Bool → SendResult
  -- `clock_gettime` of CLOCK_MONOTONIC and of CLOCK_REALTIME
  pub monotonic : Log → Timespec
  pub realtime : Log → Timespec

-- The flags of `events` in zmq.h.
abbrev pub pollin_flag : ℕ
pollin_flag = 1

abbrev pub pollout_flag : ℕ
pollout_flag = 2

abbrev pub with_sent : Sock → Event → List Bytes → List Bytes
with_sent s (sent t b more (accepted n)) old = if t == s then old ++ b ∷ [] else old
with_sent s _ old = old

-- What a socket has accepted, the oldest first.
unfoldable pub sent_on : Sock → Log → List Bytes
sent_on s [] = []
sent_on s (e ∷ log) = with_sent s e (sent_on s log)

abbrev pub outcome_of : Bool → Outcome
outcome_of true = ok
outcome_of false = fail

module _ (env : Env) where
  -- A call followed by `ZMQ_NEGONERET` or `NZRET`.
  unfoldable pub call : Request → Action Log
  call r log = (outcome_of (env.answer log r), called r (env.answer log r) ∷ log)

  -- A call whose failure is only printed.
  unfoldable pub attempt : Request → Action Log
  attempt r log = (ok, called r (env.answer log r) ∷ log)

  -- `zmq_send` with one part, followed by `ZMQ_NEGONERET`.
  unfoldable pub send_checked : Sock → Bytes → Action Log
  send_checked s b log = (
    outcome_of (is_accepted (env.send log s b false)),
    sent s b false (env.send log s b false) ∷ log,
  )
