-- ===== src/Sockopts.antt =====
-- src/bsr_sockhelp.c: the options of the sockets that the program opens.
pub mod Effect
pub mod Single
use bsreadrepeater.Base.{ℤ, pos, ◌*◌, Action, ◌>>◌}
use bsreadrepeater.Zmq.{
  Sock, SockOpt, zmq_linger, zmq_ipv6, zmq_maxmsgsize, zmq_handshake_ivl, zmq_rcvhwm, zmq_sndhwm,
  zmq_rcvbuf, zmq_sndbuf, zmq_tcp_keepalive, zmq_tcp_keepalive_idle, zmq_tcp_keepalive_intvl,
  zmq_tcp_keepalive_cnt, zmq_heartbeat_ivl, zmq_heartbeat_timeout, zmq_heartbeat_ttl, setsockopt,
  Log, Env, call,
}

module _ (env : Env) where
  -- `zmq_setsockopt` and the check of its result.
  unfoldable pub set_opt : Sock → SockOpt → ℤ → Action Log
  unfolding call
  set_opt sock o v = call env (setsockopt sock o v)

  unfoldable pub set_basic_sock_opts : Sock → Action Log
  unfolding set_opt
  set_basic_sock_opts sock =
      set_opt sock zmq_linger (pos 800)
      >> set_opt sock zmq_ipv6 (pos 0)
      >> set_opt sock zmq_maxmsgsize (pos (1024 * 1024 * 20))
      >> set_opt sock zmq_handshake_ivl (pos 0)

  unfoldable pub set_linger : Sock → ℤ → Action Log
  unfolding set_opt
  set_linger sock v = set_opt sock zmq_linger v

  unfoldable pub set_msgmax : Sock → ℤ → Action Log
  unfolding set_opt
  set_msgmax sock msgmax = set_opt sock zmq_maxmsgsize msgmax

  unfoldable pub set_rcvhwm : Sock → ℤ → Action Log
  unfolding set_opt
  set_rcvhwm sock hwm = set_opt sock zmq_rcvhwm hwm

  unfoldable pub set_sndhwm : Sock → ℤ → Action Log
  unfolding set_opt
  set_sndhwm sock hwm = set_opt sock zmq_sndhwm hwm

  unfoldable pub set_rcvbuf : Sock → ℤ → Action Log
  unfolding set_opt
  set_rcvbuf sock v = set_opt sock zmq_rcvbuf v

  unfoldable pub set_sndbuf : Sock → ℤ → Action Log
  unfolding set_opt
  set_sndbuf sock v = set_opt sock zmq_sndbuf v

  unfoldable pub set_keepalive : Sock → Action Log
  unfolding set_opt
  set_keepalive sock =
      set_opt sock zmq_tcp_keepalive (pos 1)
      >> set_opt sock zmq_tcp_keepalive_idle (pos 120)
      >> set_opt sock zmq_tcp_keepalive_intvl (pos 25)
      >> set_opt sock zmq_tcp_keepalive_cnt (pos 6)

  -- Not called: both callers have it under `if (0)`.
  unfoldable pub set_heartbeat : Sock → Action Log
  unfolding set_opt
  set_heartbeat sock =
      set_opt sock zmq_heartbeat_ivl (pos 25000)
      >> set_opt sock zmq_heartbeat_timeout (pos 120000)
      >> set_opt sock zmq_heartbeat_ttl (pos 120000)

  unfoldable pub set_pull_sock_opts : Sock → ℤ → ℤ → ℤ → Action Log
  unfolding set_basic_sock_opts set_keepalive set_msgmax set_rcvhwm set_rcvbuf
  set_pull_sock_opts sock msgmax hwm buf =
      set_basic_sock_opts sock
      >> set_keepalive sock
      >> set_msgmax sock msgmax
      >> set_rcvhwm sock hwm
      >> set_rcvbuf sock buf

  unfoldable pub set_push_sock_opts : Sock → ℤ → ℤ → Action Log
  unfolding set_basic_sock_opts set_keepalive set_sndhwm set_sndbuf
  set_push_sock_opts sock hwm buf =
      set_basic_sock_opts sock >> set_keepalive sock >> set_sndhwm sock hwm >> set_sndbuf sock buf
