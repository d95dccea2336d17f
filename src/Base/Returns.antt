-- ===== src/Base/Returns.antt =====
-- How a call of a C function that returns `ERRT` ends, and the state that it leaves. What was
-- written before an early return stays written.

use mathlib.Core.Path.{◌≡◌, refl}

-- `fault` is an access outside of an object, on which C says nothing.
pub data Outcome : Type 0 where
  ok fail fault : Outcome

-- An action on the state `S`: the outcome, and the state after it.
abbrev pub Action {ℓ} : Type ℓ → Type ℓ
Action S = S → Outcome × S

module _ {ℓ} {S : Type ℓ} where
  abbrev pub done : Action S
  done s = (ok, s)

  abbrev continue : Outcome → Action S → Action S
  continue ok k s = k s
  continue fail k s = (fail, s)
  continue fault k s = (fault, s)

  infixl 5 ◌>>◌
  -- `NZRET`: the next statement runs if this one returned 0.
  abbrev pub ◌>>◌ : Action S → Action S → Action S
  ◌>>◌ m k s = let (o, s') = m s in continue o k s'

  -- Statements with no result.
  abbrev pub exec : (S → S) → Action S
  exec f s = (ok, f s)

  continue-ok :
      (o : Outcome) (k : Action S) (s : S)
      → (continue o k s).0 ≡ ok
      → (o ≡ ok) × (continue o k s ≡ k s)
  continue-ok ok k s h = (refl, refl)
  continue-ok fail k s h = cc
  continue-ok fault k s h = cc

  -- A sequence that returns 0 has passed through its first part.
  pub >>-eq-ok :
      (m k : Action S) (s : S) → ((m >> k) s).0 ≡ ok → ((m s).0 ≡ ok) × ((m >> k) s ≡ k (m s).1)
  >>-eq-ok m k s h = continue-ok (m s).0 k (m s).1 h

module _ {ℓ κ} {S : Type ℓ} where
  -- What holds before an action holds after it, however it ends.
  abbrev pub Preserves : (S → Type κ) → Action S → Type (ℓ ⊔ κ)
  Preserves P m = (s : S) → P s → P (m s).1

  continue-Preserves :
      (P : S → Type κ) (o : Outcome) (k : Action S) (s : S)
      → Preserves P k
      → P s
      → P (continue o k s).1
  continue-Preserves P ok k s p h = p s h
  continue-Preserves P fail k s p h = h
  continue-Preserves P fault k s p h = h

  pub >>-Preserves :
      (P : S → Type κ) (m k : Action S) → Preserves P m → Preserves P k → Preserves P (m >> k)
  >>-Preserves P m k pm pk s h = continue-Preserves P (m s).0 k (m s).1 pk (pm s h)

  -- The same from one state, in which the first part has been seen to reach `P`.
  pub >>-reaches :
      (P : S → Type κ) (m k : Action S) (s : S) → P (m s).1 → Preserves P k → P ((m >> k) s).1
  >>-reaches P m k s h pk = continue-Preserves P (m s).0 k (m s).1 pk h

  continue-if_ok :
      (P : S → Type κ) (o : Outcome) (k : Action S) (s : S)
      → P s
      → (o ≡ ok → P (k s).1)
      → P (continue o k s).1
  continue-if_ok P ok k s h p = p refl
  continue-if_ok P fail k s h p = h
  continue-if_ok P fault k s h p = h

  -- The same where the second part needs that the first has returned 0.
  pub >>-if_ok :
      (P : S → Type κ) (m k : Action S) (s : S)
      → P (m s).1
      → ((m s).0 ≡ ok → P (k (m s).1).1)
      → P ((m >> k) s).1
  >>-if_ok P m k s h p = continue-if_ok P (m s).0 k (m s).1 h p
