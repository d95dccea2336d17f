-- ===== src/Hex.antt =====
-- src/hex.c: `to_hex`.
use bsreadrepeater.Base.{
  ◌/◌, ℕ, ◌≤◌, ◌*◌, some, [], ◌%◌, ◌<◌, if◌then◌else◌, suc, arith, Option, Bytes, length, ◌∷◌, take,
  refl, ◌+◌, zero, none, ◌-◌, ap₂, ◌≡◌, ltb, true, inr, inl, Bool-cases, leb, ◌⊎◌, false,
}

-- The digit that `%x` prints.
abbrev pub hex_digit : ℕ → ℕ
hex_digit d = if ltb d 10 then b'0' + d else b'a' + (d - 10)

-- The text behind `buf` after `to_hex(buf, in, n)`, where `in` has the bytes given: `none` if the
-- loop reads past them. A byte is printed as `%02x`.
unfoldable pub to_hex : Bytes → ℕ → Option Bytes
to_hex input zero = some []
to_hex [] (suc n) = none
to_hex (b ∷ input) (suc n) = elim (to_hex input n) [
  | none ↦ none
  | some text ↦ some (hex_digit (b / 16) ∷ hex_digit (b % 16) ∷ text)
]

-- The inverse: the digits read back.
abbrev digit_value : ℕ → ℕ
digit_value c = if ltb c b'a' then c - b'0' else c - b'a' + 10

unfoldable pub of_hex : Bytes → Bytes
of_hex (x ∷ y ∷ text) = (digit_value x * 16 + digit_value y) ∷ of_hex text
of_hex _ = []

abbrev pub AreBytes : Bytes → Type 0
AreBytes [] = Unit {0}
AreBytes (b ∷ bs) = (b < 256) × AreBytes bs

digit_value-hex_digit : (d : ℕ) → d < 16 → digit_value (hex_digit d) ≡ d
digit_value-hex_digit d h = ground arith

to_hex-both :
    (input : Bytes) (n : ℕ)
    → AreBytes input
    → (n ≤ length input
        → (text : Bytes) × (to_hex input n ≡ some text)
          × (length text ≡ 2 * n)
          × (of_hex text ≡ take n input))
      × (length input < n → to_hex input n ≡ none)
unfolding to_hex of_hex
to_hex-both input zero h = (λ l. ([], refl, refl, refl), λ l. absurd (omega arith))
to_hex-both [] (suc n) h = (λ l. absurd (omega arith), λ l. refl)
to_hex-both (b ∷ input) (suc n) h =
    let (inside, outside) = to_hex-both input n h.1 in
    (
      λ l.
          let (text, e, len, back) = inside (omega arith) in
          (
            hex_digit (b / 16) ∷ hex_digit (b % 16) ∷ text,
            rw e,
            omega arith,
            ap₂ ◌∷◌ (byte_back b h.0) back,
          ),
      λ l. rw (outside (omega arith)),
    )
  where
    byte_back :
        (b : ℕ)
        → b < 256
        → digit_value (hex_digit (b / 16)) * 16 + digit_value (hex_digit (b % 16)) ≡ b
    byte_back b lt = omega (
      arith,
      digit_value-hex_digit (b / 16) (omega arith),
      digit_value-hex_digit (b % 16) (omega arith),
    )

-- For an input of bytes: either it has the `n` bytes asked for, and `to_hex` writes two digits for
-- each of them, from which the bytes can be read back, or it has fewer, and `to_hex` reads past the
-- end.
pub to_hex_roundtrip :
    (input : Bytes) (n : ℕ)
    → AreBytes input
    → (n ≤ length input)
        × ((text : Bytes) × (to_hex input n ≡ some text)
            × (length text ≡ 2 * n)
            × (of_hex text ≡ take n input))
      ⊎ (length input < n) × (to_hex input n ≡ none)
to_hex_roundtrip input n h = elim (Bool-cases (leb n (length input))) [
  | inl e ↦ (let le = leb-le n (length input) e in inl (le, (to_hex-both input n h).0 le))
  | inr e ↦ (let lt = leb-lt n (length input) e in inr (lt, (to_hex-both input n h).1 lt))
]
  where
    leb-le : (a b : ℕ) → leb a b ≡ true → a ≤ b
    leb-le a b e = ground arith

    leb-lt : (a b : ℕ) → leb a b ≡ false → b < a
    leb-lt a b e = ground arith
