-- ===== src/Memreq.antt =====
-- src/bsr_memreq.c: the queue of commands that the program sends to itself.
pub mod Ring
pub mod Order
pub mod Drain
use bsreadrepeater.Base.{
  Bytes, fail, ok, leb, ltb, get_or, Action, set, min, none, ◌==◌, ◌∷◌, if◌then◌else◌, List, ◌-◌,
  some, ℕ, ◌>>◌, length, [], Outcome, ◌+◌, drop,
}
use bsreadrepeater.Channel.Open.{fresh}
use bsreadrepeater.Text.{copied}
use bsreadrepeater.Zmq.{
  Env, pollout, pollin_flag, recv_reply, poller_add, not_opened, pollin, poller_modify, nothing,
  Sock, pollout_flag, Log, call, opened, send_checked, req, connect, attempt, close, poller_remove,
}

-- `OUTQ_LEN` and `OUTQ_ITEM_LEN`.
abbrev pub outq_len_max : ℕ
outq_len_max = 12

abbrev pub outq_item_len : ℕ
outq_item_len = 256

-- `struct bsr_memreq`. `outq` holds the string in each slot, `outq_wp` and `outq_rp` are the numbers
-- of the slots that the pointers stand at; they only move by whole slots.
pub record Memreq : Type 0 where
  pub cmdaddr : Bytes
  pub sock_out : Sock
  pub state : ℕ
  pub outq : List Bytes
  pub outq_wp : ℕ
  pub outq_rp : ℕ
  pub outq_len : ℕ

-- The handler with the log of the calls.
pub record Shared : Type 0 where
  pub self : Memreq
  pub log : Log

abbrev pub on_queue_log : Action Log → Action Shared
on_queue_log m s = let (o, l) = m s.log in (o, record s { log = l })

abbrev pub update_queue : (Memreq → Memreq) → Action Shared
update_queue f s = (ok, record s { self = f s.self })

-- The step of a slot pointer, with the wrap at the end of the array.
abbrev pub advance : ℕ → ℕ
advance p = if leb outq_len_max (p + 1) then 0 else p + 1

-- The C `int` would be negative past `OUTQ_LEN`; both are below every bound that is tested.
unfoldable pub bsr_memreq_free_len : Memreq → ℕ
bsr_memreq_free_len m = outq_len_max - m.outq_len

-- C's `a && b` as a number: it is 1 for any two numbers that are not 0.
abbrev pub logical_and : ℕ → ℕ → ℕ
logical_and a b = if a == 0 then 0 else if b == 0 then 0 else 1

module _ (env : Env) where
  unfoldable pub update_poller : Action Shared
  unfolding call
  update_poller s =
      if s.self.state == 1
      then on_queue_log (call env (poller_modify s.self.sock_out pollin)) s
      else if ltb 0 s.self.outq_len
      then on_queue_log (call env (poller_modify s.self.sock_out pollout)) s
      else (ok, s)

  abbrev sent_one : Memreq → Memreq
  sent_one m = record m { outq_rp = advance m.outq_rp; outq_len = m.outq_len - 1; state = 1 }

  unfoldable pub bsr_memreq_handle_event : ℕ → Action Shared
  unfolding update_poller send_checked call
  bsr_memreq_handle_event events s =
      if s.self.state == 0
      then (if logical_and events pollout_flag == 0
          then (fail, s)
          else if s.self.outq_len == 0
          then (fail, s)
          else (on_queue_log
                  (send_checked env s.self.sock_out (get_or s.self.outq s.self.outq_rp []))
                >> update_queue sent_one
                >> update_poller)
              s)
      else if s.self.state == 1
      then (if logical_and events pollin_flag == 0
          then (fail, s)
          else (on_queue_log (call env (recv_reply s.self.sock_out))
                >> update_queue (λ m. record m { state = 0 })
                >> update_poller)
              s)
      else (fail, s)

  -- The slot handed out through `*buf` is `outq_wp` before the call.
  unfoldable pub bsr_memreq_next_cmd_buf : Action Shared
  unfolding bsr_memreq_free_len update_poller
  bsr_memreq_next_cmd_buf s =
      if ltb (bsr_memreq_free_len s.self) 1
      then (fail, s)
      else (update_queue (λ m. record m { outq_wp = advance m.outq_wp; outq_len = m.outq_len + 1 })
            >> update_poller)
          s

  unfoldable pub bsr_memreq_add_cmd : Bytes → Action Shared
  unfolding bsr_memreq_free_len update_poller
  bsr_memreq_add_cmd cmd s =
      if ltb (bsr_memreq_free_len s.self) 1
      then (fail, s)
      else if leb outq_item_len (min (length cmd) outq_item_len)
      then (fail, s)
      else (update_queue (λ m. record m {
        outq = set m.outq m.outq_wp cmd;
        outq_wp = advance m.outq_wp;
        outq_len = m.outq_len + 1;
      })
            >> update_poller)
          s

  -- `bsr_memreq_init` on memory that held `m`, in which `m.cmdaddr` are the bytes from the field on. An
  -- address of 79 bytes gets no NUL, and is read on into them. The connect to the command address and the
  -- poller entry come last, and the first that fails ends it.
  unfoldable pub bsr_memreq_init : Bytes → Memreq → Log → Outcome × Shared
  unfolding call copied
  bsr_memreq_init cmdaddr m log =
      let address = copied 79 (drop 79 m.cmdaddr) cmdaddr in
      let fresh : Memreq = record m { state = 0; outq_len = 0; outq_wp = 0; outq_rp = 0 } in
      if leb 80 (min (length cmdaddr) 80)
      then (fail, record { self = fresh; log = log })
      else elim (env.socket log req) [
        | none ↦
            (fail, record { self = record fresh { cmdaddr = address }; log = not_opened req ∷ log })
        | some sock ↦
            (on_queue_log (call env (connect sock address))
                >> on_queue_log (call env (poller_add sock nothing)))
              (record {
                self = record fresh { cmdaddr = address; sock_out = sock };
                log = opened req sock ∷ log;
              })
      ]

  -- `cleanup_struct_bsr_memreq`; errors are only printed.
  unfoldable pub cleanup_struct_bsr_memreq : Memreq → Action Log
  unfolding attempt
  cleanup_struct_bsr_memreq m =
      attempt env (poller_remove m.sock_out) >> attempt env (close m.sock_out)
