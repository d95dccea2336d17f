-- ===== src/Handlers/Lookup.antt =====
-- The list of handlers as a store: addresses of handlers are given out once, in ascending order.
use bsreadrepeater.Base.{
  arith, ◌+◌, ◌≤◌, none, inl, ◌==◌, ◌≢◌, inr, List, ◌≡◌, [], ℕ, ◌<◌, Bool-cases, ◌++◌, ◌∷◌, refl,
}
use bsreadrepeater.Handlers.{remove_id, Handler, Entry, lookup_id, set_handler}

module _ {F : Type 0} where
  -- The addresses ascend from `lo` on, and are below `hi`.
  abbrev pub Ascending : ℕ → ℕ → List (Entry F) → Type 0
  Ascending lo hi [] = Unit {0}
  Ascending lo hi (e ∷ es) = (lo ≤ e.id) × (e.id < hi) × Ascending (e.id + 1) hi es

  pub set_handler-Ascending :
      (id : ℕ) (h : Handler F) (es : List (Entry F)) (lo hi : ℕ)
      → Ascending lo hi es
      → Ascending lo hi (set_handler id h es)
  unfolding set_handler
  set_handler-Ascending id h [] lo hi a = a
  set_handler-Ascending id h (e ∷ es) lo hi a = elim (Bool-cases (e.id == id)) [
    | inl eq ↦ rw eq a
    | inr ne ↦ rw ne (a.0, a.1, set_handler-Ascending id h es (e.id + 1) hi a.2)
  ]

  pub append-Ascending :
      (es : List (Entry F)) (h : Handler F) (lo hi : ℕ)
      → lo ≤ hi
      → Ascending lo hi es
      → Ascending lo (hi + 1) (es ++ record { id = hi; handler = h } ∷ [])
  append-Ascending [] h lo hi l a = (l, omega arith, tt)
  append-Ascending (e ∷ es) h lo hi l a =
      (a.0, omega (arith, a.1), append-Ascending es h (e.id + 1) hi (omega (arith, a.1)) a.2)

  Ascending-lower :
      (es : List (Entry F)) (lo lo' hi : ℕ) → lo' ≤ lo → Ascending lo hi es → Ascending lo' hi es
  Ascending-lower [] lo lo' hi l a = a
  Ascending-lower (e ∷ es) lo lo' hi l a = (omega (arith, a.0), a.1, a.2)

  pub remove_id-Ascending :
      (id : ℕ) (es : List (Entry F)) (lo hi : ℕ)
      → Ascending lo hi es
      → Ascending lo hi (remove_id id es)
  unfolding remove_id
  remove_id-Ascending id [] lo hi a = a
  remove_id-Ascending id (e ∷ es) lo hi a = elim (Bool-cases (e.id == id)) [
    | inl eq ↦ rw eq (Ascending-lower es (e.id + 1) lo hi (omega (arith, a.0)) a.2)
    | inr ne ↦ rw ne (a.0, a.1, remove_id-Ascending id es (e.id + 1) hi a.2)
  ]

  -- An address below the rest of the list is not in it.
  lookup_id_below :
      (id : ℕ) (es : List (Entry F)) (lo hi : ℕ)
      → id < lo
      → Ascending lo hi es
      → lookup_id id es ≡ none
  unfolding lookup_id
  lookup_id_below id [] lo hi l a = refl
  lookup_id_below id (e ∷ es) lo hi l a =
      ground (arith, a.0, lookup_id_below id es (e.id + 1) hi (omega (arith, a.0)) a.2)

  -- After a removal there is no handler at the address.
  pub lookup_id-remove_id :
      (id : ℕ) (es : List (Entry F)) (lo hi : ℕ)
      → Ascending lo hi es
      → lookup_id id (remove_id id es) ≡ none
  unfolding lookup_id remove_id
  lookup_id-remove_id id [] lo hi a = refl
  lookup_id-remove_id id (e ∷ es) lo hi a =
      ground (
        arith,
        lookup_id_below id es (e.id + 1) hi,
        a.2,
        lookup_id-remove_id id es (e.id + 1) hi a.2,
      )

  -- The other handlers stay where they are.
  pub lookup_id-remove_id_ne :
      (id kept : ℕ) (es : List (Entry F))
      → kept ≢ id
      → lookup_id kept (remove_id id es) ≡ lookup_id kept es
  unfolding lookup_id remove_id
  lookup_id-remove_id_ne id kept [] n = refl
  lookup_id-remove_id_ne id kept (e ∷ es) n = ground (arith, lookup_id-remove_id_ne id kept es n)
