-- ===== src/Sockets.antt =====
-- The sockets that the program has open: what the log of the calls says of one of them.
use bsreadrepeater.Base.{
  Bytes, Bool, arith, Action, false, Preserves, ◌≡◌, some, ◌∷◌, Option, none, >>-Preserves, ℤ, ◌+◌,
  ℕ, ◌&&◌, ◌==◌, [], ◌>>◌, true, if◌then◌else◌,
}
use bsreadrepeater.Sockopts.{
  set_msgmax, set_pull_sock_opts, set_sndhwm, set_push_sock_opts, set_rcvbuf, set_sndbuf,
  set_rcvhwm, set_basic_sock_opts, set_keepalive,
}
use bsreadrepeater.Zmq.{
  Log, SockType, sent, Env, attempt, SendResult, not_opened, Sock, Request, opened, Event, called,
  close, call,
}

-- Whether a call closes the socket `k`.
abbrev pub is_close_of : Sock → Request → Bool
is_close_of k (close s) = s == k
is_close_of k _ = false

abbrev pub one_if : Bool → ℕ
one_if true = 1
one_if false = 0

abbrev with_opened : Sock → Event → ℕ → ℕ
with_opened k (opened t s) n = one_if (s == k) + n
with_opened k _ n = n

abbrev with_closed : Sock → Event → ℕ → ℕ
with_closed k (called r b) n = if is_close_of k r && b then n + 1 else n
with_closed k _ n = n

-- How often the socket has been opened and closed.
unfoldable pub opens : Sock → Log → ℕ
opens k [] = 0
opens k (e ∷ log) = with_opened k e (opens k log)

unfoldable pub closes : Sock → Log → ℕ
closes k [] = 0
closes k (e ∷ log) = with_closed k e (closes k log)

-- The socket has been opened `n` times more than it was closed.
abbrev pub IsOpen : Sock → ℕ → Log → Type 0
IsOpen k n log = opens k log ≡ closes k log + n

-- `zmq_close` fails only for what is not a socket.
abbrev pub CloseSucceeds : Env → Type 0
CloseSucceeds env = (log : Log) (s : Sock) → env.answer log (close s) ≡ true

-- What a socket that may be NULL counts for.
abbrev pub held_by : Sock → Option Sock → ℕ
held_by k none = 0
held_by k (some s) = one_if (s == k)

module _ (env : Env) (k : Sock) where
  abbrev pub KeepsOpen : Action Log → Type 0
  KeepsOpen m = (n : ℕ) → Preserves (IsOpen k n) m

  pub call-KeepsOpen : (r : Request) → is_close_of k r ≡ false → KeepsOpen (call env r)
  unfolding call opens closes
  call-KeepsOpen r e n log h = rw e h

  pub attempt-KeepsOpen : (r : Request) → is_close_of k r ≡ false → KeepsOpen (attempt env r)
  unfolding attempt opens closes
  attempt-KeepsOpen r e n log h = rw e h

  pub then-KeepsOpen : (m l : Action Log) → KeepsOpen m → KeepsOpen l → KeepsOpen (m >> l)
  then-KeepsOpen m l p q n = >>-Preserves (IsOpen k n) m l (p n) (q n)

  pub opened-IsOpen :
      (t : SockType) (s : Sock) (n : ℕ) (log : Log)
      → IsOpen k n log
      → IsOpen k (one_if (s == k) + n) (opened t s ∷ log)
  unfolding opens closes
  opened-IsOpen t s n log h = omega (arith, h)

  pub not_opened-IsOpen :
      (t : SockType) (n : ℕ) (log : Log) → IsOpen k n log → IsOpen k n (not_opened t ∷ log)
  unfolding opens closes
  not_opened-IsOpen t n log h = h

  pub sent-IsOpen :
      (s : Sock) (b : Bytes) (more : Bool) (r : SendResult) (n : ℕ) (log : Log)
      → IsOpen k n log
      → IsOpen k n (sent s b more r ∷ log)
  unfolding opens closes
  sent-IsOpen s b more r n log h = h

  -- A call of `zmq_close` that succeeds.
  pub close-IsOpen :
      CloseSucceeds env
      → (s : Sock) (n : ℕ) (log : Log) → IsOpen k (one_if (s == k) + n) log
      → IsOpen k n (called (close s) (env.answer log (close s)) ∷ log)
  unfolding opens closes
  close-IsOpen c s n log h = ground (arith, c log s, h)

  pub set_pull_sock_opts-KeepsOpen :
      (s : Sock) (msgmax hwm buf : ℤ) → KeepsOpen (set_pull_sock_opts env s msgmax hwm buf)
  unfolding set_pull_sock_opts set_basic_sock_opts set_keepalive set_msgmax set_rcvhwm set_rcvbuf
      call opens closes
  set_pull_sock_opts-KeepsOpen s msgmax hwm buf n log h = ground (arith, h)

  pub set_push_sock_opts-KeepsOpen :
      (s : Sock) (hwm buf : ℤ) → KeepsOpen (set_push_sock_opts env s hwm buf)
  unfolding set_push_sock_opts set_basic_sock_opts set_keepalive set_sndhwm set_sndbuf call opens
      closes
  set_push_sock_opts-KeepsOpen s hwm buf n log h = ground (arith, h)
