-- ===== src/Split/Fields.antt =====
-- The fields of a command: no byte is lost, how many there are, and what a written command has.
use bsreadrepeater.Base.{
  [], zero, ◌++◌, ==_iff, Bool-cases, Bytes, true, suc, length, refl, ◌≡◌, ℕ, inr, ◌≤◌, ◌+◌, ◌∷◌,
  length-map, min, ◌==◌, append_assoc, ◌∙◌, arith, inl, ap, List,
}
use bsreadrepeater.Split.{bsr_str_split, split_from, Piece}
use bsreadrepeater.Split.Join.{
  split_texts-eq-fields, join, commas, fields, piece_text, prepend, split_texts,
}

join-prepend : (o x : Bytes) (xs : List Bytes) → join (prepend o (x ∷ xs)) ≡ o ++ join (x ∷ xs)
unfolding join
join-prepend o x [] = refl
join-prepend o x (y ∷ xs) = append_assoc o x (b',' ∷ join (y ∷ xs))

-- `fields` is never empty.
fields-cons : (k : ℕ) (s : Bytes) → (x : Bytes) × (xs : List Bytes) × (fields k s ≡ x ∷ xs)
unfolding fields
fields-cons zero s = (s, [], refl)
fields-cons (suc k) [] = ([], [], refl)
fields-cons (suc k) (c ∷ s) = elim (Bool-cases (c == b',')) [
  | inl e ↦ ([], fields k s, rw e)
  | inr e ↦ (let (x, xs, h) = fields-cons (suc k) s in (c ∷ x, xs, rw (e, h)))
]

pub join-fields : (k : ℕ) (s : Bytes) → join (fields k s) ≡ s
unfolding fields join
join-fields zero s = refl
join-fields (suc k) [] = refl
join-fields (suc k) (c ∷ s) = elim (Bool-cases (c == b',')) [
  | inl e ↦
      (let (x, xs, h) = fields-cons k s in
        rw (e, h, (==_iff c b',').0 e) (ap (◌∷◌ b',') (rw h at (join-fields k s))))
  | inr e ↦
      (let (x, xs, h) = fields-cons (suc k) s in
        rw (e, h) (join-prepend (c ∷ []) x xs ∙ ap (◌∷◌ c) (rw h at (join-fields (suc k) s))))
]

pub length-fields : (k : ℕ) (s : Bytes) → length (fields k s) ≡ min k (commas s) + 1
unfolding fields commas
length-fields zero s = omega arith
length-fields (suc k) [] = omega arith
length-fields (suc k) (c ∷ s) = elim (Bool-cases (c == b',')) [
  | inl e ↦ rw e (omega (arith, length-fields k s))
  | inr e ↦
      (let (x, xs, h) = fields-cons (suc k) s in
        rw (e, h) (omega (arith, ap length h, length-fields (suc k) s)))
]

-- Text with no comma in it is one field.
pub fields_of_no_comma : (k : ℕ) (a : Bytes) → commas a ≡ 0 → fields k a ≡ a ∷ []
unfolding fields commas
fields_of_no_comma zero a h = refl
fields_of_no_comma (suc k) [] h = refl
fields_of_no_comma (suc k) (c ∷ a) h = elim (Bool-cases (c == b',')) [
  | inl e ↦ absurd (no_comma e)
  | inr e ↦ rw (e, fields_of_no_comma (suc k) a (ground arith))
]
  where
    no_comma : (c == b',') ≡ true → ⊥
    no_comma e = ground arith

-- A field written before a comma is read back.
pub fields_field :
    (k : ℕ) (a s : Bytes) → commas a ≡ 0 → fields (suc k) (a ++ b',' ∷ s) ≡ a ∷ fields k s
unfolding fields commas
fields_field k [] s h = refl
fields_field k (c ∷ a) s h = elim (Bool-cases (c == b',')) [
  | inl e ↦ absurd (no_comma e)
  | inr e ↦ rw (e, fields_field k a s (ground arith))
]
  where
    no_comma : (c == b',') ≡ true → ⊥
    no_comma e = ground arith

-- `bsr_str_split` loses no byte of the command: its pieces, joined by commas, are the command again;
-- there is one piece more than commas, and at most eight, which is the room in `struct SplitMap`.
pub bsr_str_split_roundtrip :
    (str : Bytes)
    → (join (split_texts str) ≡ str)
      × (length (bsr_str_split str) ≡ min 7 (commas str) + 1)
      × (length (bsr_str_split str) ≤ 8)
bsr_str_split_roundtrip str =
    (rw split_texts-eq-fields (join-fields 7 str), size, omega (arith, size))
  where
    size : length (bsr_str_split str) ≡ min 7 (commas str) + 1
    size = omega (
      arith,
      ap length (split_texts-eq-fields str),
      length-fields 7 str,
      length-map (bsr_str_split str) (piece_text str),
    )

abbrev pub InCommand : ℕ → List Piece → Type 0
InCommand n [] = Unit {0}
InCommand n (p ∷ ps) = (p.beg ≤ p.stop) × (p.stop ≤ n) × InCommand n ps

split_from-InCommand :
    (rest : Bytes) (p1 b m n : ℕ)
    → b ≤ p1
    → p1 + length rest ≡ n
    → InCommand n (split_from rest p1 b m)
unfolding split_from
split_from-InCommand [] p1 b m n hb hn = (hb, omega arith, tt)
split_from-InCommand (c ∷ rest) p1 b m n hb hn = ground (
  arith,
  split_from-InCommand rest (p1 + 1) (p1 + 1) (m + 1) n,
  split_from-InCommand rest (p1 + 1) b m n,
)

-- Every pointer that `bsr_str_split` stores points into the command or just behind it, and no piece
-- ends before it begins.
pub bsr_str_split-InCommand : (str : Bytes) → InCommand (length str) (bsr_str_split str)
unfolding bsr_str_split
bsr_str_split-InCommand str =
    split_from-InCommand str 0 0 0 (length str) (omega arith) (omega arith)
