-- ===== src/TimedEvents.antt =====
-- src/bsr_timed_events.c: inputs to enable again at a later time. The GTree is the list of its
-- entries in the order of its comparison function, with one entry for a key.
pub mod Order
use bsreadrepeater.Base.{
  ℕ, u64_mod, leb, pos, some, [], ◌%◌, if◌then◌else◌, fail, suc, ok, List, ℤ, ◌++◌, Option, Bytes,
  length, ◌∷◌, Outcome, take, Bool, zero, none, not, ◌-◌, ltb, negsuc,
}
use bsreadrepeater.Split.{Timespec, time_delta_mu}
use bsreadrepeater.Text.{c_string}

-- `enum timed_event_type` has the one value ENABLE. The string in `addr` is what a reader finds up
-- to its NUL or the end of the array.
pub record TimedEvent : Type 0 where
  pub addr : Bytes

abbrev pub Tree : Type 0
Tree = List (ℕ × TimedEvent)

pub record TimedEvents : Type 0 where
  pub tree : Tree
  pub ts_init : Timespec

unfoldable pub ts_compare : ℕ → ℕ → ℤ
ts_compare x y = if ltb x y then negsuc 0 else if ltb y x then pos 1 else pos 0

-- `g_tree_insert`, `g_tree_lookup` and `g_tree_remove` on a tree over `ts_compare`.
unfoldable pub tree_insert : ℕ → TimedEvent → Tree → Tree
unfolding ts_compare
tree_insert key val [] = (key, val) ∷ []
tree_insert key val ((k, v) ∷ t) =
    let rest = tree_insert key val t in
    elim (ts_compare key k) [
      | pos zero ↦ (k, val) ∷ t
      | pos (suc n) ↦ (k, v) ∷ rest
      | negsuc n ↦ (key, val) ∷ (k, v) ∷ t
    ]

unfoldable pub tree_lookup : ℕ → Tree → Option TimedEvent
unfolding ts_compare
tree_lookup key [] = none
tree_lookup key ((k, v) ∷ t) =
    let rest = tree_lookup key t in elim (ts_compare key k) [ pos zero ↦ some v | _ ↦ rest ]

unfoldable pub tree_remove : ℕ → Tree → Tree
unfolding ts_compare
tree_remove key [] = []
tree_remove key ((k, v) ∷ t) =
    let rest = tree_remove key t in elim (ts_compare key k) [ pos zero ↦ t | _ ↦ (k, v) ∷ rest ]

-- `g_tree_foreach` with `stop_on_first`: the first key that the traversal meets.
unfoldable pub first_key : Tree → Option ℕ
first_key [] = none
first_key ((k, v) ∷ t) = some k

abbrev pub nnodes : Tree → ℕ
nnodes t = length t

unfoldable pub bsr_timed_events_init : Timespec → TimedEvents
bsr_timed_events_init now = record { tree = []; ts_init = now }

-- `bsr_timed_events_cleanup`: the tree is destroyed with all that is in it.
unfoldable pub bsr_timed_events_cleanup : TimedEvents → TimedEvents
bsr_timed_events_cleanup self = record self { tree = [] }

-- What `strncpy(val->addr, addr, 78)` leaves in an array of 80 bytes that held `junk` at its last two.
unfoldable pub copy_78 : Bytes → Bytes → Bytes
copy_78 junk addr = if ltb (length addr) 78 then addr else take 78 addr ++ c_string (take 2 junk)

-- `allocated` says whether the two `malloc` calls succeed.
unfoldable pub bsr_timed_events_add_input_enable :
    Bool → Bytes → Bytes → ℕ → TimedEvents → Outcome × TimedEvents
bsr_timed_events_add_input_enable allocated junk addr tsmu self =
    if ltb 7 (nnodes self.tree) then (ok, self) else if not allocated then (fail, self) else (
      ok,
      record self { tree = tree_insert tsmu (record { addr = copy_78 junk addr }) self.tree },
    )

-- `(uint64_t)` of an `int64_t`.
abbrev pub to_u64 : ℤ → ℕ
to_u64 (pos n) = n % u64_mod
to_u64 (negsuc n) = (u64_mod - 1 - n % u64_mod) % u64_mod

-- The key and the event that go out through `*retkey` and `*ret`; `none` is NULL.
unfoldable pub bsr_timed_events_most_recent_key : TimedEvents → Timespec → Option (ℕ × TimedEvent)
bsr_timed_events_most_recent_key self tsnow =
    let tsnowmu = to_u64 (time_delta_mu self.ts_init tsnow) in
    if ltb 0 (nnodes self.tree)
    then elim (first_key self.tree) [
      | none ↦ none
      | some key ↦
          if leb key tsnowmu
          then elim (tree_lookup key self.tree) [ none ↦ none | some ev ↦ some (key, ev) ]
          else none
    ]
    else none
