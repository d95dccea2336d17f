-- ===== src/Split/Join.antt =====
-- `bsr_str_split` cuts at the first seven commas and loses nothing.
use bsreadrepeater.Base.{
  Bool-cases, append-nil, le→leb, ap, arith, zero, false, [], ◌==◌, length, suc, Bytes, inr, ◌≡◌,
  drop-append, ◌+◌, length-append, ◌∙◌, drop, if◌then◌else◌, take, List, ℕ, refl, ◌-◌, inl, map,
  ◌∷◌, take-append, ◌++◌, append_assoc, leb,
}
use bsreadrepeater.Split.{split_from, bsr_str_split, Piece}
-- The text of entry `k` of the map: the bytes from `beg[k]` to `end[k]`.
use bsreadrepeater.Base.{
  List, Bytes, ℕ, Bool-cases, take, map, refl, if◌then◌else◌, arith, inl, drop, drop-append,
  take-append, length, ◌++◌, [], ◌==◌, ◌-◌, ◌≡◌, append_assoc, suc, append-nil, inr, ◌∷◌, ◌+◌, zero,
  ap,
}
use bsreadrepeater.Split.{Piece, bsr_str_split, split_from}

abbrev pub piece_text : Bytes → Piece → Bytes
piece_text str p = take (p.stop - p.beg) (drop p.beg str)

abbrev pub split_texts : Bytes → List Bytes
split_texts str = map (piece_text str) (bsr_str_split str)

abbrev pub prepend : Bytes → List Bytes → List Bytes
prepend o [] = o ∷ []
prepend o (x ∷ xs) = (o ++ x) ∷ xs

-- The reference: cut at the first `k` commas.
unfoldable pub fields : ℕ → Bytes → List Bytes
fields zero s = s ∷ []
fields (suc k) [] = [] ∷ []
fields (suc k) (c ∷ s) =
    let cut = [] ∷ fields k s in
    let grow = prepend (c ∷ []) (fields (suc k) s) in if c == b',' then cut else grow

unfoldable pub join : List Bytes → Bytes
join [] = []
join (x ∷ []) = x
join (x ∷ y ∷ r) = x ++ b',' ∷ join (y ∷ r)

unfoldable pub commas : Bytes → ℕ
commas [] = 0
commas (c ∷ s) = (if c == b',' then 1 else 0) + commas s

prepend-prepend :
    (o : Bytes) (c : ℕ) (xs : List Bytes)
    → prepend (o ++ c ∷ []) xs ≡ prepend o (prepend (c ∷ []) xs)
prepend-prepend o c [] = refl
prepend-prepend o c (x ∷ xs) = ap (λ t. t ∷ xs) (append_assoc o (c ∷ []) x)

prepend-nil : (k : ℕ) (s : Bytes) → prepend [] (fields k s) ≡ fields k s
unfolding fields
prepend-nil zero s = refl
prepend-nil (suc k) [] = refl
prepend-nil (suc k) (c ∷ s) = elim (Bool-cases (c == b',')) [
  | inl e ↦ rw e refl
  | inr e ↦ rw e (go (fields (suc k) s))
]
  where
    go : (xs : List Bytes) → prepend [] (prepend (c ∷ []) xs) ≡ prepend (c ∷ []) xs
    go [] = refl
    go (x ∷ xs) = refl

piece_text_open :
    (str pre opn rest : Bytes) (b e : ℕ)
    → str ≡ pre ++ (opn ++ rest)
    → length pre ≡ b
    → b + length opn ≡ e
    → piece_text str (record { beg = b; stop = e }) ≡ opn
piece_text_open str pre opn rest b e hs hb he = rw (hs, ← hb, drop-append, d, take-append)
  where
    d : e - length pre ≡ length opn
    d = omega arith

-- The open piece takes one more byte.
extend_open :
    (pre opn rest : Bytes) (c : ℕ) → pre ++ (opn ++ c ∷ rest) ≡ pre ++ ((opn ++ c ∷ []) ++ rest)
extend_open pre opn rest c = rw (append_assoc opn (c ∷ []) rest)

-- The open piece is closed and the next one starts behind the comma.
close_open :
    (pre opn rest : Bytes) (c : ℕ)
    → pre ++ (opn ++ c ∷ rest) ≡ (pre ++ (opn ++ c ∷ [])) ++ ([] ++ rest)
close_open pre opn rest c = simp append_assoc

length-close :
    (pre opn : Bytes) (c b p : ℕ)
    → length pre ≡ b
    → b + length opn ≡ p
    → length (pre ++ (opn ++ c ∷ [])) ≡ p + 1
length-close pre opn c b p hb hp =
    omega (arith, length-append pre (opn ++ c ∷ []), length-append opn (c ∷ []))

length-open : (opn : Bytes) (c b p : ℕ) → b + length opn ≡ p → b + length (opn ++ c ∷ []) ≡ p + 1
length-open opn c b p hp = omega (arith, length-append opn (c ∷ []))

-- The loop, started with the piece `opn` open behind `pre`.
split_from-fields :
    (m : ℕ) (str rest pre opn : Bytes) (p1 b n : ℕ)
    → str ≡ pre ++ (opn ++ rest)
    → length pre ≡ b
    → b + length opn ≡ p1
    → n + m ≡ 6
    → map (piece_text str) (split_from rest p1 b n) ≡ prepend opn (fields (suc m) rest)
unfolding split_from fields
split_from-fields m str [] pre opn p1 b n hs hb hp hn =
    rw (piece_text_open str pre opn [] b p1 hs hb hp, append-nil)
split_from-fields zero str (c ∷ rest) pre opn p1 b n hs hb hp hn = elim (Bool-cases (c == b',')) [
  | inl e ↦ rw (
    e,
    le→leb 7 (n + 1) (omega arith),
    piece_text_open str pre opn (c ∷ rest) b p1 hs hb hp,
    append-nil,
    last,
  )
  | inr e ↦ rw e (
      split_from-fields zero str rest pre (opn ++ c ∷ []) (p1 + 1) b n
        (hs ∙ extend_open pre opn rest c) hb (length-open opn c b p1 hp) hn
      ∙ prepend-prepend opn c (fields 1 rest))
]
  where
    last : piece_text str (record { beg = p1 + 1; stop = p1 + 1 + length rest }) ≡ rest
    last =
        piece_text_open str (pre ++ (opn ++ c ∷ [])) rest [] (p1 + 1) (p1 + 1 + length rest)
          (hs ∙ close_open pre opn rest c ∙ rw append-nil) (length-close pre opn c b p1 hb hp) refl
split_from-fields (suc m) str (c ∷ rest) pre opn p1 b n hs hb hp hn =
    elim (Bool-cases (c == b',')) [
      | inl e ↦
          rw (e, not_full, piece_text_open str pre opn (c ∷ rest) b p1 hs hb hp, append-nil)
            (ap (◌∷◌ opn) (
              split_from-fields m str rest (pre ++ (opn ++ c ∷ [])) [] (p1 + 1) (p1 + 1) (n + 1)
                (hs ∙ close_open pre opn rest c) (length-close pre opn c b p1 hb hp) (omega arith)
                (omega arith)
              ∙ prepend-nil (suc m) rest))
      | inr e ↦ rw e (
          split_from-fields (suc m) str rest pre (opn ++ c ∷ []) (p1 + 1) b n
            (hs ∙ extend_open pre opn rest c) hb (length-open opn c b p1 hp) hn
          ∙ prepend-prepend opn c (fields (suc (suc m)) rest))
    ]
  where
    not_full : leb 7 (n + 1) ≡ false
    not_full = ground arith

-- `bsr_str_split` cuts a command at its first seven commas: the texts of the entries of its map are
-- the fields of the reference `fields 7`.
pub split_texts-eq-fields : (str : Bytes) → split_texts str ≡ fields 7 str
unfolding bsr_str_split
split_texts-eq-fields str =
    split_from-fields 6 str str [] [] 0 0 0 refl refl refl refl ∙ prepend-nil 7 str
