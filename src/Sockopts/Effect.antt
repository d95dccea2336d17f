-- ===== src/Sockopts/Effect.antt =====
-- The options in effect after the calls of bsr_sockhelp.c.
use bsreadrepeater.Base.{
  ◌≡◌, ◌==◌, Option, arith, true, ◌∷◌, if◌then◌else◌, ok, ℕ, ℤ, ==_refl, ◌&&◌, none, pos, some, [],
}
use bsreadrepeater.Sockopts.{set_pull_sock_opts, set_push_sock_opts}
use bsreadrepeater.Zmq.{
  zmq_handshake_ivl, Sock, zmq_tcp_keepalive_idle, setsockopt, zmq_heartbeat_ttl, Log, zmq_ipv6,
  zmq_heartbeat_timeout, Event, zmq_tcp_keepalive_intvl, zmq_sndhwm, zmq_rcvbuf, zmq_rcvhwm,
  zmq_maxmsgsize, zmq_heartbeat_ivl, zmq_tcp_keepalive_cnt, Env, zmq_sndbuf, called, zmq_linger,
  zmq_tcp_keepalive, SockOpt, zmq_rcvtimeo,
}

-- A number for each option, to compare them by.
abbrev index : SockOpt → ℕ
index zmq_linger = 0
index zmq_ipv6 = 1
index zmq_maxmsgsize = 2
index zmq_handshake_ivl = 3
index zmq_rcvhwm = 4
index zmq_sndhwm = 5
index zmq_rcvbuf = 6
index zmq_sndbuf = 7
index zmq_tcp_keepalive = 8
index zmq_tcp_keepalive_idle = 9
index zmq_tcp_keepalive_intvl = 10
index zmq_tcp_keepalive_cnt = 11
index zmq_heartbeat_ivl = 12
index zmq_heartbeat_timeout = 13
index zmq_heartbeat_ttl = 14
index zmq_rcvtimeo = 15

-- What a log entry says of an option of a socket, given what held before it.
abbrev set_by : Sock → SockOpt → Event → Option ℤ → Option ℤ
set_by s o (called (setsockopt t p v) true) old =
    if t == s && index p == index o then some v else old
set_by s o _ old = old

-- The value of the newest successful `zmq_setsockopt`.
unfoldable pub option_of : Sock → SockOpt → Log → Option ℤ
option_of s o [] = none
option_of s o (e ∷ log) = set_by s o e (option_of s o log)

module _ (env : Env) (sock : Sock) where
  -- When `set_pull_sock_opts` returns 0, the socket has the message limit, the high-water mark and the
  -- receive buffer that were asked for (the first in place of the default of 20 MB, set before), a
  -- linger of 800 ms and keepalive.
  pub set_pull_sock_opts_lem :
      (msgmax hwm buf : ℤ) (log : Log)
      → (set_pull_sock_opts env sock msgmax hwm buf log).0 ≡ ok
      → let log' = (set_pull_sock_opts env sock msgmax hwm buf log).1 in
        (option_of sock zmq_maxmsgsize log' ≡ some msgmax)
        × (option_of sock zmq_rcvhwm log' ≡ some hwm)
        × (option_of sock zmq_rcvbuf log' ≡ some buf)
        × (option_of sock zmq_linger log' ≡ some (pos 800))
        × (option_of sock zmq_tcp_keepalive log' ≡ some (pos 1))
  unfolding set_pull_sock_opts option_of
  set_pull_sock_opts_lem msgmax hwm buf log h = ground (arith, ==_refl sock)

  -- When `set_push_sock_opts` returns 0, the socket has the high-water mark and the send buffer that
  -- were asked for, the default message limit of 20 MB and a linger of 800 ms.
  pub set_push_sock_opts_lem :
      (hwm buf : ℤ) (log : Log)
      → (set_push_sock_opts env sock hwm buf log).0 ≡ ok
      → let log' = (set_push_sock_opts env sock hwm buf log).1 in
        (option_of sock zmq_sndhwm log' ≡ some hwm)
        × (option_of sock zmq_sndbuf log' ≡ some buf)
        × (option_of sock zmq_maxmsgsize log' ≡ some (pos 20971520))
        × (option_of sock zmq_linger log' ≡ some (pos 800))
  unfolding set_push_sock_opts option_of
  set_push_sock_opts_lem hwm buf log h = ground (arith, ==_refl sock)
