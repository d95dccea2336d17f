-- ===== src/Rep/Later.antt =====
-- The loop over the timed events at the end of a round.
use bsreadrepeater.Base.{
  Bytes, ◌∷◌, none, Preserves, true, Outcome, leb, Option, fail, ℕ, some, if◌then◌else◌, fault,
  arith, [], ◌≡◌, ok, refl, false, ◌≤◌, inl, length, inr, ap, zero, ◌∙◌, Bool-cases, suc, sym,
  if_false, if_true, subst,
}
use bsreadrepeater.Channel.{Ctx, Outside}
use bsreadrepeater.Channel.Open.{bsr_chnhandler_enable_input}
use bsreadrepeater.Handlers.{
  Handler, for_source, App, startup, with_source, source, dummy_source, memreq, ignore_failure,
  handler_list_find_by_input_addr, Entry,
}
use bsreadrepeater.Rep.{Repeater}
use bsreadrepeater.Rep.Due.{enable_source, events_of, enable_due, remove_event, timed_events_loop}
use bsreadrepeater.Split.{Timespec}
use bsreadrepeater.TimedEvents.{
  TimedEvents, tree_lookup, TimedEvent, bsr_timed_events_most_recent_key, first_key, Tree,
  tree_remove, ts_compare, nnodes,
}
use bsreadrepeater.TimedEvents.Order.{all_after, now_of, is_sorted, all_after-lt}

-- The entries of a tree whose time is after `n`.
unfoldable pub later : ℕ → Tree → Tree
later n [] = []
later n ((k, v) ∷ t) = let rest = later n t in if leb k n then rest else (k, v) ∷ rest

later-all : (n : ℕ) (t : Tree) → all_after n t ≡ true → later n t ≡ t
unfolding later all_after
later-all n [] h = refl
later-all n ((k, v) ∷ t) h = ground (arith, later-all n t)

later-nil : (n : ℕ) → later n [] ≡ []
unfolding later
later-nil n = refl

later-due :
    (n k : ℕ) (v : TimedEvent) (t : Tree) → leb k n ≡ true → later n ((k, v) ∷ t) ≡ later n t
unfolding later
later-due n k v t l = ground arith

later-first :
    (n k : ℕ) (v : TimedEvent) (t : Tree)
    → leb k n ≡ false
    → is_sorted ((k, v) ∷ t) ≡ true
    → later n ((k, v) ∷ t) ≡ (k, v) ∷ t
unfolding is_sorted all_after
later-first n k v t l s = later-all n ((k, v) ∷ t) (ground (arith, all_after-lt n k t))

remove_first : (k : ℕ) (v : TimedEvent) (t : Tree) → tree_remove k ((k, v) ∷ t) ≡ t
unfolding tree_remove ts_compare
remove_first k v t = ground arith

-- What the look-up for a due event gives, by the first entry of a tree in order.
next_of_due :
    (self : TimedEvents) (now : Timespec) (k : ℕ) (v : TimedEvent) (t : Tree)
    → self.tree ≡ (k, v) ∷ t
    → leb k (now_of self now) ≡ true
    → bsr_timed_events_most_recent_key self now ≡ some (k, v)
unfolding bsr_timed_events_most_recent_key first_key tree_lookup ts_compare
next_of_due self now k v t e l = ground arith

next_of_later :
    (self : TimedEvents) (now : Timespec) (k : ℕ) (v : TimedEvent) (t : Tree)
    → self.tree ≡ (k, v) ∷ t
    → leb k (now_of self now) ≡ false
    → bsr_timed_events_most_recent_key self now ≡ none
unfolding bsr_timed_events_most_recent_key first_key tree_lookup ts_compare
next_of_later self now k v t e l = ground arith

next_of_empty :
    (self : TimedEvents) (now : Timespec)
    → self.tree ≡ []
    → bsr_timed_events_most_recent_key self now ≡ none
unfolding bsr_timed_events_most_recent_key first_key
next_of_empty self now e = ground arith

-- No event of the entries after `n` is due at `n`.
later-IsQuiet :
    (t : Tree) (self : TimedEvents) (now : Timespec)
    → self.tree ≡ later (now_of self now) t
    → bsr_timed_events_most_recent_key self now ≡ none
unfolding later
later-IsQuiet [] self now e = next_of_empty self now e
later-IsQuiet ((k, v) ∷ t) self now e = elim (Bool-cases (leb k (now_of self now))) [
  | inl due ↦ later-IsQuiet t self now (e ∙ if_true _ _ due)
  | inr ahead ↦
      next_of_later self now k v (later (now_of self now) t) (e ∙ if_false _ _ ahead) ahead
]

module _ {F : Type 0} (w : Outside F) (now : Timespec) where
  -- The timed events stay as they are.
  abbrev Same : TimedEvents → App F → Type 0
  Same t a = a.stats.timed_events ≡ t

  enable_input-events :
      (t : TimedEvents)
      → Preserves (λ (c : Ctx F). c.stats.timed_events ≡ t) (bsr_chnhandler_enable_input w)
  unfolding bsr_chnhandler_enable_input
  enable_input-events t c h = ground (arith, h)

  ignored-events :
      (t : TimedEvents) (r : Outcome × App F) → Same t r.1 → Same t (ignore_failure w r).1
  ignored-events t (ok, a) h = h
  ignored-events t (fail, a) h = h
  ignored-events t (fault, a) h = h

  for_source-events :
      (t : TimedEvents) (e : Entry F) (h : Handler F) (a : App F)
      → Same t a
      → Same t (for_source w (bsr_chnhandler_enable_input w) e h a).1
  for_source-events t e (source self) a s =
      ignored-events t _
        (enable_input-events t (record { self = self; stats = a.stats; log = a.log }) s)
  for_source-events t e (startup m) a s = s
  for_source-events t e (memreq m) a s = s
  for_source-events t e (dummy_source m) a s = s

  with_source-events :
      (addr : Bytes) (t : TimedEvents)
      → Preserves (Same t) (with_source w addr (bsr_chnhandler_enable_input w))
  unfolding with_source
  with_source-events addr t a s = by_found (handler_list_find_by_input_addr addr a.handlers)
    where
      by_found :
          (x : Option (Entry F))
          → Same t
              (elim x as (λ y. Outcome × App F) [
                | none ↦ (ok, a)
                | some e ↦ for_source w (bsr_chnhandler_enable_input w) e e.handler a
              ]).1
      by_found none = s
      by_found (some e) = for_source-events t e e.handler a s

  enable_source-events :
      (addr : Bytes) (r : Repeater F)
      → events_of w now (enable_source w now addr r) ≡ events_of w now r
  unfolding enable_source
  enable_source-events addr r = with_source-events addr (events_of w now r) r.session.app refl

  -- The timed events without those that are due.
  abbrev pub only_later : TimedEvents → TimedEvents
  only_later self = record self { tree = later (now_of self now) self.tree }

  -- The tree of the next round of the loop.
  removed-events :
      (r : Repeater F) (k : ℕ) (v : TimedEvent) (t : Tree)
      → (events_of w now r).tree ≡ (k, v) ∷ t
      → events_of w now (enable_source w now v.addr (remove_event w now k r))
        ≡ record (events_of w now r) { tree = t }
  removed-events r k v t e =
      enable_source-events v.addr (remove_event w now k r)
      ∙ ap (λ x. record (events_of w now r) { tree = x })
          (ap (tree_remove k) e ∙ remove_first k v t)

  abbrev after_next : ℕ → Repeater F → Option (ℕ × TimedEvent) → Repeater F
  after_next n r x = elim x [
    | none ↦ r
    | some (key, ev) ↦ enable_due w now n (enable_source w now ev.addr (remove_event w now key r))
  ]

  enable_due-zero : (r : Repeater F) → enable_due w now 0 r ≡ r
  unfolding enable_due
  enable_due-zero r = refl

  enable_due-step :
      (n : ℕ) (r : Repeater F) (x : Option (ℕ × TimedEvent))
      → bsr_timed_events_most_recent_key (events_of w now r) now ≡ x
      → enable_due w now (suc n) r ≡ after_next n r x
  unfolding enable_due
  enable_due-step n r x e = ap (after_next n r) e

  -- Nothing is due.
  stays :
      (n : ℕ) (r : Repeater F)
      → bsr_timed_events_most_recent_key (events_of w now r) now ≡ none
      → later (now_of (events_of w now r) now) (events_of w now r).tree ≡ (events_of w now r).tree
      → events_of w now (enable_due w now (suc n) r) ≡ only_later (events_of w now r)
  stays n r e l =
      ap (events_of w now) (enable_due-step n r none e)
      ∙ ap (λ x. record (events_of w now r) { tree = x }) (sym l)

  enable_due-later :
      (t : Tree) (n : ℕ) (r : Repeater F)
      → (events_of w now r).tree ≡ t
      → is_sorted t ≡ true
      → length t ≤ n
      → events_of w now (enable_due w now n r) ≡ only_later (events_of w now r)
  unfolding is_sorted
  enable_due-later [] zero r e s l =
      ap (events_of w now) (enable_due-zero r)
      ∙ ap (λ x. record (events_of w now r) { tree = x })
          (e
            ∙ sym (later-nil (now_of (events_of w now r) now))
            ∙ ap (later (now_of (events_of w now r) now)) (sym e))
  enable_due-later [] (suc n) r e s l =
      stays n r (next_of_empty (events_of w now r) now e)
        (rw e (later-nil (now_of (events_of w now r) now)))
  enable_due-later ((k, v) ∷ t) zero r e s l = absurd (omega (arith, l))
  enable_due-later ((k, v) ∷ t) (suc n) r e s l =
      elim (Bool-cases (leb k (now_of (events_of w now r) now))) [
        | inl due ↦
            ap (events_of w now)
              (enable_due-step n r (some (k, v)) (next_of_due (events_of w now r) now k v t e due))
            ∙ enable_due-later t n (enable_source w now v.addr (remove_event w now k r))
                (ap (λ x. x.tree) (removed-events r k v t e)) (ground arith) (omega (arith, l))
            ∙ ap only_later (removed-events r k v t e)
            ∙ ap (λ x. record (events_of w now r) { tree = x })
                (sym (later-due (now_of (events_of w now r) now) k v t due)
                  ∙ ap (later (now_of (events_of w now r) now)) (sym e))
        | inr not_due ↦
            stays n r (next_of_later (events_of w now r) now k v t e not_due)
              (rw e (later-first (now_of (events_of w now r) now) k v t not_due s))
      ]

  -- With the tree in order, the loop over the timed events at the end of a round comes to its `break`
  -- within as many rounds as the tree has entries: afterwards nothing is due. It has taken out the
  -- entries whose time has come, and has left the others as they were.
  pub timed_events_loop_lem :
      (r : Repeater F)
      → is_sorted (events_of w now r).tree ≡ true
      → let self = events_of w now (timed_events_loop w now r) in
        (bsr_timed_events_most_recent_key self now ≡ none) × (self ≡ only_later (events_of w now r))
  unfolding timed_events_loop
  timed_events_loop_lem r s =
      let e =
        enable_due-later (events_of w now r).tree (nnodes (events_of w now r).tree) r refl s
          (omega arith) in
      (
        subst (λ x. bsr_timed_events_most_recent_key x now ≡ none) (sym e)
            (later-IsQuiet (events_of w now r).tree (only_later (events_of w now r)) now refl),
        e,
      )
