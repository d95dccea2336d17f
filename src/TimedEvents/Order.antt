-- ===== src/TimedEvents/Order.antt =====
-- The tree of timed events: its order, its size, and what `bsr_timed_events_most_recent_key` gives.
use bsreadrepeater.Base.{
  ltb, ◌<◌, ◌∷◌, length, leb, [], true, Bool, arith, ℕ, ◌≡◌, refl, ◌≤◌, ◌&&◌, some, inl, none, ◌⊎◌,
  Option, inr, if◌then◌else◌, Bool-cases, sym, subst, if_true,
}
use bsreadrepeater.Split.{time_delta_mu, Timespec}
use bsreadrepeater.TimedEvents.{
  TimedEvent, ts_compare, Tree, tree_lookup, bsr_timed_events_most_recent_key, to_u64, first_key,
  TimedEvents,
}

-- Every key is after `n`, and every key is at `n` or after it.
unfoldable pub all_after : ℕ → Tree → Bool
all_after n [] = true
all_after n ((k, v) ∷ t) = ltb n k && all_after n t

unfoldable pub all_from : ℕ → Tree → Bool
all_from n [] = true
all_from n ((k, v) ∷ t) = leb n k && all_from n t

unfoldable pub is_sorted : Tree → Bool
is_sorted [] = true
is_sorted ((k, v) ∷ t) = all_after k t && is_sorted t

pub all_after-lt : (n k : ℕ) (t : Tree) → n < k → all_after k t ≡ true → all_after n t ≡ true
unfolding all_after
all_after-lt n k [] l h = refl
all_after-lt n k ((x, v) ∷ t) l h = ground (arith, all_after-lt n k t)

all_from_of_after : (k : ℕ) (t : Tree) → all_after k t ≡ true → all_from k t ≡ true
unfolding all_after all_from
all_from_of_after k [] h = refl
all_from_of_after k ((x, v) ∷ t) h = ground (arith, all_from_of_after k t)

-- The tree is in order and has eight entries at most.
abbrev pub IsTree : Tree → Type 0
IsTree t = (is_sorted t ≡ true) × (length t ≤ 8)

abbrev pub now_of : TimedEvents → Timespec → ℕ
now_of self tsnow = to_u64 (time_delta_mu self.ts_init tsnow)

-- The event that is next at a time: the one with the least key, if that has come; otherwise none.
abbrev pub IsNext : Tree → ℕ → Option (ℕ × TimedEvent) → Type 0
IsNext t now r =
    ((key : ℕ) × (ev : TimedEvent) × (r ≡ some (key, ev))
      × (key ≤ now)
      × (all_from key t ≡ true)
      × (tree_lookup key t ≡ some ev))
    ⊎ (r ≡ none) × (all_after now t ≡ true)

lookup_first : (k : ℕ) (v : TimedEvent) (t : Tree) → tree_lookup k ((k, v) ∷ t) ≡ some v
unfolding tree_lookup ts_compare
lookup_first k v t = ground arith

first-IsNext :
    (k now : ℕ) (v : TimedEvent) (t : Tree)
    → all_after k t ≡ true
    → IsNext ((k, v) ∷ t) now (if leb k now then some (k, v) else none)
unfolding all_after all_from
first-IsNext k now v t s = elim (Bool-cases (leb k now)) [
  | inl e ↦
      rw e
        (inl (k, v, refl, ground arith, ground (arith, all_from_of_after k t), lookup_first k v t))
  | inr e ↦ rw e (inr (refl, ground (arith, all_after-lt now k t)))
]

filled : (k : ℕ) (v : TimedEvent) (t : Tree) → ltb 0 (length ((k, v) ∷ t)) ≡ true
filled k v t = ground arith

-- In a tree in order, either an event is due and `bsr_timed_events_most_recent_key` gives the one with
-- the least key of all, with that key, or it gives NULL and every key is in the future.
pub most_recent_key_lem :
    (self : TimedEvents) (tsnow : Timespec)
    → is_sorted self.tree ≡ true
    → IsNext self.tree (now_of self tsnow) (bsr_timed_events_most_recent_key self tsnow)
unfolding bsr_timed_events_most_recent_key first_key is_sorted all_after
most_recent_key_lem self tsnow s = by_tree self.tree (now_of self tsnow) s
  where
    found : Tree → ℕ → Option (ℕ × TimedEvent)
    found t now =
        if ltb 0 (length t)
        then elim (first_key t) [
          | none ↦ none
          | some key ↦
              if leb key now
              then elim (tree_lookup key t) [ none ↦ none | some ev ↦ some (key, ev) ]
              else none
        ]
        else none

    by_tree : (t : Tree) (now : ℕ) → is_sorted t ≡ true → IsNext t now (found t now)
    by_tree [] now s = inr (refl, refl)
    by_tree ((k, v) ∷ t) now s =
        subst (IsNext ((k, v) ∷ t) now) (sym (if_true _ none (filled k v t))) (
          subst
            (λ (r : Option TimedEvent). IsNext ((k, v) ∷ t) now (
              if leb k now
              then elim r as (λ x. Option (ℕ × TimedEvent)) [ none ↦ none | some ev ↦ some (k, ev) ]
              else none))
            (sym (lookup_first k v t)) (first-IsNext k now v t (ground arith)))
