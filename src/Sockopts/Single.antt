-- ===== src/Sockopts/Single.antt =====
-- The rest of src/bsr_sockhelp.c: the clean-up of a context and of a socket, and one request on a
-- context of its own, which the self test sends.
use bsreadrepeater.Base.{
  Bytes, none, fail, Option, some, take, true, Action, if◌then◌else◌, >>-Preserves, ℕ, false, ◌∷◌,
  refl, ◌>>◌, Bool, ◌+◌, Outcome, pos, ◌==◌, ok, arith,
}
use bsreadrepeater.Sockets.{
  opened-IsOpen, opens, closes, not_opened-IsOpen, IsOpen, attempt-KeepsOpen, call-KeepsOpen,
  CloseSucceeds, KeepsOpen, one_if, close-IsOpen,
}
use bsreadrepeater.Zmq.{
  Log, recv_reply, Env, not_opened, close, ctx_term, alloc, opened, Sock, send_checked, connect,
  setsockopt, req, attempt, zmq_rcvtimeo, call,
}

module _ (env : Env) where
  -- `cleanup_zmq_ctx`, with whether there is a context. The pointer is NULL afterwards.
  unfoldable pub cleanup_zmq_ctx : Bool → Log → Outcome × Bool × Log
  unfolding attempt
  cleanup_zmq_ctx made log = (ok, false, if made then (attempt env ctx_term log).1 else log)

  -- `cleanup_zmq_socket`.
  unfoldable pub cleanup_zmq_socket : Option Sock → Log → Outcome × Option Sock × Log
  unfolding attempt
  cleanup_zmq_socket none log = (ok, none, log)
  cleanup_zmq_socket (some sock) log = (ok, none, (attempt env (close sock) log).1)

  -- What runs when the variable goes out of scope; the result stays.
  abbrev then_clean : (Log → Log) → Outcome × Log → Outcome × Log
  then_clean f (o, log) = (o, f log)

  abbrev exchange : Sock → Bytes → Bytes → Action Log
  exchange sock addr msg =
      call env (setsockopt sock zmq_rcvtimeo (pos 1000))
      >> call env (connect sock addr)
      >> send_checked env sock msg
      >> call env (recv_reply sock)

  -- A socket that is NULL passes the check, which looks at the context once more, and is refused by
  -- `zmq_setsockopt`.
  unfoldable pub with_request_socket : Bytes → Bytes → Action Log
  unfolding call send_checked cleanup_zmq_socket
  with_request_socket addr msg log = elim (env.socket log req) [
    | none ↦ (fail, not_opened req ∷ log)
    | some sock ↦
        then_clean (λ l. (cleanup_zmq_socket (some sock) l).2)
          (exchange sock addr msg (opened req sock ∷ log))
  ]

  -- `req_rep_single` of a message of `n` bytes.
  unfoldable pub req_rep_single : Bytes → Bytes → ℕ → Action Log
  unfolding call with_request_socket cleanup_zmq_ctx
  req_rep_single addr msg n = call env alloc >> (λ log.
      then_clean (λ l. (cleanup_zmq_ctx true l).2) (with_request_socket addr (take n msg) log))

  module _ (k : Sock) (c : CloseSucceeds env) where
    exchange-KeepsOpen : (sock : Sock) (addr msg : Bytes) → KeepsOpen env k (exchange sock addr msg)
    unfolding call send_checked opens closes
    exchange-KeepsOpen sock addr msg n log h = ground (arith, h)

    cleanup-IsOpen :
        (s : Sock) (n : ℕ) (log : Log)
        → IsOpen k (one_if (s == k) + n) log
        → IsOpen k n (cleanup_zmq_socket (some s) log).2
    unfolding cleanup_zmq_socket attempt
    cleanup-IsOpen s n log h = close-IsOpen env k c s n log h

    with_request_socket-KeepsOpen :
        (addr msg : Bytes) → KeepsOpen env k (with_request_socket addr msg)
    unfolding with_request_socket
    with_request_socket-KeepsOpen addr msg n log h = by_socket (env.socket log req)
      where
        by_socket :
            (s : Option Sock)
            → IsOpen k n
                (elim s as (λ x. Outcome × Log) [
                  | none ↦ (fail, not_opened req ∷ log)
                  | some sock ↦
                      then_clean
                        (λ l. (cleanup_zmq_socket (some sock) l).2)
                        (exchange sock addr msg (opened req sock ∷ log))
                ]).1
        by_socket none = not_opened-IsOpen env k req n log h
        by_socket (some sock) = cleanup-IsOpen sock n _ (
            exchange-KeepsOpen sock addr msg (one_if (sock == k) + n) _
              (opened-IsOpen env k req sock n log h))

    -- If `zmq_close` succeeds, one request leaves every socket as often open as it was, whether the
    -- context, the socket, an option, the connection, the message or the answer fails: it closes what it
    -- opens.
    pub req_rep_single-IsOpen :
        (addr msg : Bytes) (n m : ℕ) (log : Log)
        → IsOpen k m log
        → IsOpen k m (req_rep_single addr msg n log).1
    unfolding req_rep_single cleanup_zmq_ctx
    req_rep_single-IsOpen addr msg n m =
        >>-Preserves (IsOpen k m) (call env alloc) _ (call-KeepsOpen env k alloc refl m) (λ log h.
          attempt-KeepsOpen env k ctx_term refl m (with_request_socket addr (take n msg) log).1
            (with_request_socket-KeepsOpen addr (take n msg) m log h))
