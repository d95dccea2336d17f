-- ===== src/Text.antt =====
-- C strings and the calls of string.h that the program makes on them. A C string is the list of
-- its bytes without the final NUL; a `char` array of a struct that is only used as a string is the
-- string that it holds.
pub mod Compare
use Prim.Native.Char.{code}
use Prim.Native.String.{String}
use bsreadrepeater.Base.{
  ℕ, zero, suc, Bool, true, false, ◌&&◌, [], ◌∷◌, ◌==◌, if◌then◌else◌, Bytes, take, length, ltb,
  ◌++◌,
}

-- The bytes of an ASCII literal.
abbrev pub codes : String → Bytes
codes String.[] = []
codes (String.◌∷◌ c s) = code c ∷ codes s

-- The string that starts at the first byte of an array: `none` of the bytes behind its NUL.
unfoldable pub c_string : Bytes → Bytes
c_string [] = []
c_string (b ∷ bs) = let rest = c_string bs in if b == 0 then [] else b ∷ rest

-- The string in memory after `strncpy(memory, s, n)`, where `behind` is what the memory holds from its
-- byte n on. A text of n bytes or more gets no NUL, and the string goes on until the memory has one.
unfoldable pub copied : ℕ → Bytes → Bytes → Bytes
copied n behind s = if ltb (length s) n then s else take n s ++ c_string behind

-- `strncmp(a, b, n) == 0`.
unfoldable pub strncmp_eq : ℕ → Bytes → Bytes → Bool
strncmp_eq zero a b = true
strncmp_eq (suc n) [] [] = true
strncmp_eq (suc n) [] (y ∷ b) = false
strncmp_eq (suc n) (x ∷ a) [] = false
strncmp_eq (suc n) (x ∷ a) (y ∷ b) = x == y && strncmp_eq n a b

-- `memcmp(lit, buf, strlen(lit)) == 0` on a buffer that is at least as long.
unfoldable pub starts_with : Bytes → Bytes → Bool
starts_with [] buf = true
starts_with (x ∷ lit) [] = false
starts_with (x ∷ lit) (y ∷ buf) = x == y && starts_with lit buf

-- `#define ADDR_CAP 80` of bsr_chnhandler.h.
abbrev pub addr_cap : ℕ
addr_cap = 80

-- `strncpy(dst, src, ADDR_CAP); dst[ADDR_CAP - 1] = 0`.
unfoldable pub copy_addr : Bytes → Bytes
copy_addr src = take 79 src
