-- ===== src/Text/Compare.antt =====
-- What `strncmp` decides, and what survives the copy into an address field.
use mathlib.Core.List.{◌++◌}
use bsreadrepeater.Base.{
  ℕ, zero, suc, ◌≤◌, ◌<◌, ◌≡◌, refl, ap, true, false, Bool, [], ◌∷◌, arith, Bytes, take, length,
  take_all, length-take, ◌∙◌, sym,
}
use bsreadrepeater.Text.{strncmp_eq, copy_addr, addr_cap, starts_with}

pub strncmp_eq_refl : (n : ℕ) (a : Bytes) → strncmp_eq n a a ≡ true
unfolding strncmp_eq
strncmp_eq_refl zero a = refl
strncmp_eq_refl (suc n) [] = refl
strncmp_eq_refl (suc n) (x ∷ a) = ground (arith, strncmp_eq_refl n a)

pub take-eq_of_strncmp_eq : (n : ℕ) (a b : Bytes) → strncmp_eq n a b ≡ true → take n a ≡ take n b
unfolding strncmp_eq
take-eq_of_strncmp_eq zero a b h = refl
take-eq_of_strncmp_eq (suc n) [] [] h = refl
take-eq_of_strncmp_eq (suc n) [] (y ∷ b) h = ground arith
take-eq_of_strncmp_eq (suc n) (x ∷ a) [] h = ground arith
take-eq_of_strncmp_eq (suc n) (x ∷ a) (y ∷ b) h = ground (arith, take-eq_of_strncmp_eq n a b)

pub strncmp_eq_of_take-eq : (n : ℕ) (a b : Bytes) → take n a ≡ take n b → strncmp_eq n a b ≡ true
unfolding strncmp_eq
strncmp_eq_of_take-eq zero a b h = refl
strncmp_eq_of_take-eq (suc n) [] [] h = refl
strncmp_eq_of_take-eq (suc n) [] (y ∷ b) h = ground arith
strncmp_eq_of_take-eq (suc n) (x ∷ a) [] h = ground arith
strncmp_eq_of_take-eq (suc n) (x ∷ a) (y ∷ b) h = ground (arith, strncmp_eq_of_take-eq n a b)

-- `strncmp` is symmetric as a test.
pub strncmp_eq_comm : (n : ℕ) (a b : Bytes) → strncmp_eq n a b ≡ strncmp_eq n b a
unfolding strncmp_eq
strncmp_eq_comm zero a b = refl
strncmp_eq_comm (suc n) [] [] = refl
strncmp_eq_comm (suc n) [] (y ∷ b) = refl
strncmp_eq_comm (suc n) (x ∷ a) [] = refl
strncmp_eq_comm (suc n) (x ∷ a) (y ∷ b) = ground (arith, strncmp_eq_comm n a b)

-- An address that fits is stored whole.
pub copy_addr_fits : (a : Bytes) → length a < addr_cap → copy_addr a ≡ a
unfolding copy_addr
copy_addr_fits a h = take_all 79 a (omega arith)

pub length-copy_addr-lt : (a : Bytes) → length (copy_addr a) < addr_cap
unfolding copy_addr
length-copy_addr-lt a = omega (arith, length-take 79 a)

-- On two strings that are short enough `strncmp` with ADDR_CAP decides equality.
pub strncmp_eq-eq :
    (a b : Bytes)
    → length a ≤ addr_cap
    → length b ≤ addr_cap
    → strncmp_eq addr_cap a b ≡ true
    → a ≡ b
strncmp_eq-eq a b ha hb h =
    sym (take_all addr_cap a ha) ∙ take-eq_of_strncmp_eq addr_cap a b h ∙ take_all addr_cap b hb

-- A stored address never compares equal to an argument of ADDR_CAP bytes or more.
pub strncmp_eq_long :
    (a b : Bytes) → length a < addr_cap → addr_cap ≤ length b → strncmp_eq addr_cap a b ≡ false
strncmp_eq_long a b ha hb = go (strncmp_eq addr_cap a b) refl
  where
    go : (r : Bool) → strncmp_eq addr_cap a b ≡ r → strncmp_eq addr_cap a b ≡ false
    go false e = e
    go true e = absurd (
        omega (
          arith,
          ap length (take-eq_of_strncmp_eq addr_cap a b e),
          length-take addr_cap a,
          length-take addr_cap b,
        ))

pub starts_with-append : (lit rest : Bytes) → starts_with lit (lit ++ rest) ≡ true
unfolding starts_with
starts_with-append [] rest = refl
starts_with-append (x ∷ lit) rest = ground (arith, starts_with-append lit rest)
