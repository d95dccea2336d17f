-- ===== src/BsreadJson/Document.antt =====
-- What a JSON document holds, said without the parsers of src/bsr_json.cpp, and how a chain of tests that
-- ends in a given result is read backwards.
use bsreadrepeater.Base.{
  Bytes, ◌⊎◌, ℕ, ◌∷◌, [], ◌≡◌, some, Option, none, true, ◌≢◌, if◌then◌else◌, refl, arith, Bool,
  false, inl, inr,
}
use bsreadrepeater.BsreadJson.{Rapidjson}
use bsreadrepeater.JsonCommand.{same_text}
use bsreadrepeater.Text.{c_string}

pub same_text_refl : (a : Bytes) → same_text a a ≡ true
unfolding same_text
same_text_refl [] = refl
same_text_refl (x ∷ a) = ground (arith, same_text_refl a)

pub eq_of_same_text : (a b : Bytes) → same_text a b ≡ true → a ≡ b
unfolding same_text
eq_of_same_text [] [] h = refl
eq_of_same_text [] (y ∷ b) h = cc
eq_of_same_text (x ∷ a) [] h = cc
eq_of_same_text (x ∷ a) (y ∷ b) h = ground (arith, eq_of_same_text a b)

-- A member of a document as a string or as a number.
module _ {V : Type 0} (j : Rapidjson V) where
  abbrev pub HasText : V → Bytes → Bytes → Type 0
  HasText doc name s =
      (v : V) × (u : Bytes) × (j.find_member doc name ≡ some v)
      × (j.get_string v ≡ some u)
      × (c_string u ≡ s)

  abbrev pub HasNumber : V → Bytes → ℕ → Type 0
  HasNumber doc name n = (v : V) × (j.find_member doc name ≡ some v) × (j.get_uint64 v ≡ some n)

  abbrev pub HasNoText : V → Bytes → Type 0
  HasNoText doc name =
      (j.find_member doc name ≡ none)
      ⊎ ((v : V) × (j.find_member doc name ≡ some v) × (j.get_string v ≡ none))

-- A look-up and a test whose other branch does not give the result.
pub found_of :
    {A R : Type 0} {r : R} (x : Option A) (d : R) (f : A → R)
    → d ≢ r
    → (elim x as (λ y. R) [ none ↦ d | some a ↦ f a ]) ≡ r
    → (a : A) × (x ≡ some a) × (f a ≡ r)
found_of none d f n e = absurd (n e)
found_of (some a) d f n e = (a, refl, e)

pub passed_of :
    {R : Type 0} {r : R} (b : Bool) (t e : R)
    → e ≢ r
    → (if b then t else e) ≡ r
    → (b ≡ true) × (t ≡ r)
passed_of true t e n p = (refl, p)
passed_of false t e n p = absurd (n p)

pub taken_of :
    {R : Type 0} {r : R} (b : Bool) (t e : R)
    → (if b then t else e) ≡ r
    → (b ≡ true) × (t ≡ r) ⊎ (b ≡ false) × (e ≡ r)
taken_of true t e p = inl (refl, p)
taken_of false t e p = inr (refl, p)
