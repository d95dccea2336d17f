-- ===== src/DummySource.antt =====
-- src/bsr_dummy_source.c: a source for tests that the repeater runs itself.
pub mod Rounds
use bsreadrepeater.Base.{
  Outcome, Action, Bytes, ℕ, leb, true, none, zero, ◌∷◌, ◌+◌, some, Option, fail, Bool, ◌==◌, false,
  ok, ◌>>◌, fault, if◌then◌else◌, suc, done, pos, [],
}
use bsreadrepeater.Text.{codes}
use bsreadrepeater.Zmq.{
  Sock, zmq_linger, timers_cancel, Env, opened, is_accepted, not_opened, close, zmq_sndhwm, sent,
  timers_add, bind, Log, outcome_of, push, attempt, setsockopt, call,
}

-- `struct bsr_dummy_source`.
pub record DummySource : Type 0 where
  pub sock : Option Sock
  pub timer_in_use : Bool

abbrev dummy_addr : Bytes
dummy_addr = codes "tcp://127.0.0.1:3986"

module _ (env : Env) where
  abbrev on_socket : Sock → Bool → Outcome × Log → Outcome × DummySource × Log
  on_socket sock timer (o, log) = (o, record { sock = some sock; timer_in_use = timer }, log)

  -- `dummy_source_init` on memory set to 0. It returns at the first call on the socket that fails, and
  -- leaves the socket to its caller. After `zmq_timers_add` it tests the answer of `zmq_bind` again, so
  -- a timer that is refused goes unnoticed.
  unfoldable pub dummy_source_init : Log → Outcome × DummySource × Log
  unfolding call attempt
  dummy_source_init log = elim (env.socket log push) [
    | none ↦ (fail, record { sock = none; timer_in_use = false }, not_opened push ∷ log)
    | some sock ↦
        (let r =
            (call env (setsockopt sock zmq_linger (pos 200))
                >> call env (setsockopt sock zmq_sndhwm (pos 6))
                >> call env (bind sock dummy_addr)
                >> attempt env timers_add)
              (opened push sock ∷ log) in
          on_socket sock (elim r.0 [ ok ↦ true | fail ↦ false | fault ↦ false ]) r)
  ]

  -- `dummy_source_cleanup`: a socket that does not close keeps the timer.
  unfoldable pub dummy_source_cleanup : DummySource → Action Log
  unfolding call attempt
  dummy_source_cleanup d =
      elim d.sock [ none ↦ done | some sock ↦ call env (close sock) ]
      >> (if d.timer_in_use then attempt env timers_cancel else done)

-- The three parts of the message that `try_send_next` sends in turn.
unfoldable pub dummy_part : ℕ → Option (Bytes × Bool)
dummy_part ptype =
    if ptype == 0
    then some (
      codes
          "{\"htype\":\"bsr_m-1.1\",\"pulse_id\":4242,\"global_timestamp\":{\"sec\":32,\"ns\":77},\"dh_compression\":null}",
      true,
    )
    else if ptype == 1
    then some (codes "{\"htype\":\"bsr_d-1.1\",\"channels\":[]}", true)
    else if ptype == 2
    then some ([], false)
    else none

module _ (env : Env) (sock : Sock) where
  -- `try_send_next`: -1 if the socket does not take the part.
  unfoldable pub try_send_next : ℕ → Action Log
  unfolding dummy_part
  try_send_next ptype log = elim (dummy_part ptype) [
    | none ↦ (ok, log)
    | some (bytes, more) ↦ (
      outcome_of (is_accepted (env.send log sock bytes more)),
      sent sock bytes more (env.send log sock bytes more) ∷ log,
    )
  ]

  abbrev pub try_again : (ℕ → Log → Outcome × ℕ × Log) → ℕ → Outcome × Log → Outcome × ℕ × Log
  try_again k ptype (ok, log) =
      let next = k (ptype + 1) log in if leb 3 (ptype + 1) then (ok, 0, log) else next
  try_again k ptype (o, log) = (o, ptype, log)

  -- `try_sends` with the global `ptype`, which stays below 3: at most three rounds.
  unfoldable pub try_sends : ℕ → ℕ → Log → Outcome × ℕ × Log
  try_sends zero ptype log = (ok, ptype, log)
  try_sends (suc rounds) ptype log =
      try_again (λ p l. try_sends rounds p l) ptype (try_send_next ptype log)
