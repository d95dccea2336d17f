-- ===== src/Split.antt =====
-- src/bsr_str.c: `bsr_str_split` and `time_delta_mu`.
pub mod Join
pub mod Fields
use bsreadrepeater.Base.{
  ℕ, ◌+◌, ◌*◌, ◌/◌, List, [], ◌∷◌, ◌==◌, leb, if◌then◌else◌, Bytes, length, ℤ, sub_ℕ,
}

-- Entry `k` of `struct SplitMap`: the offsets of `beg[k]` and `end[k]` from `str`. The map is the
-- list of its first `n` entries.
pub record Piece : Type 0 where
  pub beg : ℕ
  pub stop : ℕ

-- The loop at `p1`, with the bytes from there to `p2`, the start of the piece that is open, and
-- `res->n`. The break at 7 leaves the eighth piece open to the end.
unfoldable pub split_from : Bytes → ℕ → ℕ → ℕ → List Piece
split_from [] p1 beg n = record { beg = beg; stop = p1 } ∷ []
split_from (c ∷ rest) p1 beg n =
    let more = split_from rest (p1 + 1) (p1 + 1) (n + 1) in
    let same = split_from rest (p1 + 1) beg n in
    if c == b','
    then (if leb 7 (n + 1)
        then record { beg = beg; stop = p1 }
          ∷ record { beg = p1 + 1; stop = p1 + 1 + length rest }
          ∷ []
        else record { beg = beg; stop = p1 } ∷ more)
    else same

-- `bsr_str_split(str, n, &res)` where `str` holds the `n` bytes given.
unfoldable pub bsr_str_split : Bytes → List Piece
unfolding split_from
bsr_str_split str = split_from str 0 0 0

-- `struct timespec`, at or after the epoch of its clock.
pub record Timespec : Type 0 where
  pub sec : ℕ
  pub nsec : ℕ

abbrev pub micros : Timespec → ℕ
micros t = t.sec * 1000000 + t.nsec / 1000

-- Exact as long as both times fit `int64_t` in microseconds.
unfoldable pub time_delta_mu : Timespec → Timespec → ℤ
time_delta_mu t1 t2 = sub_ℕ (micros t2) (micros t1)
