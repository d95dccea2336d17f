-- ===== src/Memreq/Ring.antt =====
-- The slots of the queue: the invariant, and the commands that they hold.
use native.Mathlib.Numerals.{add-one}
use bsreadrepeater.Base.{
  ◌<◌, ◌≡◌, Bytes, suc, get_or, ◌∷◌, List, ◌%◌, ℕ, arith, length, ◌≤◌, zero, [], length-set, ◌+◌,
  true, false, ap, ◌-◌, Bool, refl, fail, ltb, get_or-set_ne, get_or-set_self, ◌≢◌, ◌++◌, ◌&&◌, set,
  ==_refl, append_assoc, inr, inl, Bool-cases, ◌⊎◌,
}
use bsreadrepeater.Memreq.{
  Memreq, bsr_memreq_add_cmd, bsr_memreq_handle_event, outq_len_max, advance,
  bsr_memreq_next_cmd_buf, Shared, outq_item_len,
}
use bsreadrepeater.Zmq.{Env, sent_on}

pub record IsValid (m : Memreq) : Type 0 where
  pub slots : length m.outq ≡ outq_len_max
  pub write_in : m.outq_wp < outq_len_max
  pub read_in : m.outq_rp < outq_len_max
  pub filled : m.outq_len ≤ outq_len_max
  pub write_at : m.outq_wp ≡ (m.outq_rp + m.outq_len) % outq_len_max
  pub state_in : m.state < 2

-- The `n` commands from slot `p` on, going round the array.
abbrev pub window : List Bytes → ℕ → ℕ → List Bytes
window q p zero = []
window q p (suc n) = get_or q p [] ∷ window q (advance p) n

abbrev pub contents : Memreq → List Bytes
contents m = window m.outq m.outq_rp m.outq_len

module _ (env : Env) where
  pub add_cmd-IsValid :
      (cmd : Bytes) (s : Shared) → IsValid s.self → IsValid (bsr_memreq_add_cmd env cmd s).1.self
  unfolding bsr_memreq_add_cmd
  add_cmd-IsValid cmd s v = ground (arith, length-set s.self.outq s.self.outq_wp cmd)

  pub next_cmd_buf-IsValid :
      (s : Shared) → IsValid s.self → IsValid (bsr_memreq_next_cmd_buf env s).1.self
  unfolding bsr_memreq_next_cmd_buf
  next_cmd_buf-IsValid s v = ground arith

  pub handle_event-IsValid :
      (events : ℕ) (s : Shared)
      → IsValid s.self
      → IsValid (bsr_memreq_handle_event env events s).1.self
  unfolding bsr_memreq_handle_event
  handle_event-IsValid events s v = ground arith

-- Writing just past a window extends it by that command.
window-set :
    (q : List Bytes) (cmd : Bytes) (n p i : ℕ)
    → length q ≡ outq_len_max
    → p < outq_len_max
    → n < outq_len_max
    → i ≡ (p + n) % outq_len_max
    → window (set q i cmd) p (suc n) ≡ window q p n ++ cmd ∷ []
window-set q cmd zero p i hl hp hn e = rw (p_at, get_or-set_self q p cmd [] (omega arith))
  where
    p_at : i ≡ p
    p_at = omega arith
window-set q cmd (suc n) p i hl hp hn e = rw (get_or-set_ne q i p cmd [] (omega arith)) (
    ap (◌∷◌ (get_or q p []))
      (window-set q cmd n (advance p) i hl (ground arith) (omega arith) (ground arith)))

pub window_push :
    (q : List Bytes) (cmd : Bytes) (n p i : ℕ)
    → length q ≡ outq_len_max
    → p < outq_len_max
    → n < outq_len_max
    → i ≡ (p + n) % outq_len_max
    → window (set q i cmd) p (n + 1) ≡ window q p n ++ cmd ∷ []
window_push q cmd n p i hl hp hn e = rw add-one (window-set q cmd n p i hl hp hn e)

window_of_ne_zero :
    (q : List Bytes) (p n : ℕ) → n ≢ 0 → window q p n ≡ get_or q p [] ∷ window q (advance p) (n - 1)
window_of_ne_zero q p zero h = absurd (h refl)
window_of_ne_zero q p (suc n) h = ap (λ k. get_or q p [] ∷ window q (advance p) k) (omega arith)

abbrev pub is_free : Memreq → Bytes → Bool
is_free m cmd = ltb m.outq_len outq_len_max && ltb (length cmd) outq_item_len

module _ (env : Env) where
  pub add_cmd-takes :
      (cmd : Bytes) (s : Shared)
      → IsValid s.self
      → is_free s.self cmd ≡ true
      → contents (bsr_memreq_add_cmd env cmd s).1.self ≡ contents s.self ++ cmd ∷ []
  unfolding bsr_memreq_add_cmd
  add_cmd-takes cmd s v h = ground (arith, window_push q cmd len rp wp v.slots v.read_in)
    where
      open s.self use {outq as q, outq_len as len, outq_rp as rp, outq_wp as wp}

  pub add_cmd-refuses :
      (cmd : Bytes) (s : Shared)
      → is_free s.self cmd ≡ false
      → bsr_memreq_add_cmd env cmd s ≡ (fail, s)
  unfolding bsr_memreq_add_cmd
  add_cmd-refuses cmd s h = ground arith

  -- Of a valid queue, `bsr_memreq_add_cmd` either has room for the command, which is shorter than 256
  -- bytes and whose queue holds less than 12, and then puts it behind the others, whatever the poller
  -- answers, or it fails and changes nothing. The queue stays valid.
  pub add_cmd_lem :
      (cmd : Bytes) (s : Shared)
      → IsValid s.self
      → let r = bsr_memreq_add_cmd env cmd s in
        IsValid r.1.self
        × ((is_free s.self cmd ≡ true) × (contents r.1.self ≡ contents s.self ++ cmd ∷ [])
            ⊎ (is_free s.self cmd ≡ false) × (r ≡ (fail, s)))
  add_cmd_lem cmd s v = (
    add_cmd-IsValid env cmd s v,
    elim (Bool-cases (is_free s.self cmd)) [
      | inl e ↦ inl (e, add_cmd-takes cmd s v e)
      | inr e ↦ inr (e, add_cmd-refuses cmd s e)
    ],
  )

  -- An event neither loses nor reorders a command, on any of its branches: what the socket has
  -- accepted, followed by what is queued, stays as it was.
  pub handle_event_lem :
      (events : ℕ) (s : Shared)
      → IsValid s.self
      → let s' = (bsr_memreq_handle_event env events s).1 in
        sent_on s.self.sock_out s'.log ++ contents s'.self
        ≡ sent_on s.self.sock_out s.log ++ contents s.self
  unfolding bsr_memreq_handle_event sent_on
  handle_event_lem events s v = ground (
    arith,
    window_of_ne_zero q rp len,
    ==_refl sock,
    append_assoc (sent_on sock s.log) (get_or q rp [] ∷ []) (window q (advance rp) (len - 1)),
  )
    where
      open s.self use {outq as q, outq_len as len, outq_rp as rp, sock_out as sock}
