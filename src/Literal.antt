-- ===== src/Literal.antt =====
-- dbcc-common.c: the constants of a program as its tokens spell them.
-- A token is a pointer into the text and a length of less than 2 ^ 32 bytes. The pointer is the
-- memory from it on, as bytes; a read past its end is a fault. Bytes of 128 and more fall outside
-- the ranges that the code compares with, whether `char` is signed or not.
pub mod Integer
pub mod Character
pub mod Floating
use dbcc.Base.{
  ℕ, zero, suc, Bool, true, false, ◌&&◌, ◌||◌, Option, none, some, List, [], ◌∷◌, leb, ◌==◌,
  if◌then◌else◌, get_elem?, Run, ok, fault, ◌>>=◌, out_of_bounds,
}

abbrev pub Text : Type 0
Text = List ℕ

-- `str[i]`
abbrev pub char_at : Text → ℕ → Run ℕ
char_at str i = elim (get_elem? str i) [ none ↦ fault out_of_bounds | some c ↦ ok c ]

abbrev pub between : ℕ → ℕ → ℕ → Bool
between lo hi c = leb lo c && leb c hi

abbrev pub is_digit : ℕ → Bool
is_digit c = between b'0' b'9' c

abbrev pub is_octal_digit : ℕ → Bool
is_octal_digit c = between b'0' b'7' c

unfoldable pub is_alphanum : ℕ → Bool
is_alphanum c = is_digit c || between b'a' b'z' c || between b'A' b'Z' c

unfoldable pub is_hex_digit : ℕ → Bool
is_hex_digit c = is_digit c || between b'a' b'f' c || between b'A' b'F' c

-- `for (L = i; L < length; L++) if (!test (str[L])) break;`, where `n` is `length - i` and `str`
-- starts at `i`: how far `L` gets beyond `i`.
unfoldable pub span : (ℕ → Bool) → ℕ → Text → Run ℕ
span test zero str = ok 0
span test (suc n) [] = fault out_of_bounds
span test (suc n) (c ∷ str) =
    let rest = span test n str >>= λ l. ok (suc l) in if test c then rest else ok 0

-- `dbcc_common_number_is_integral`
unfoldable pub number_is_integral : ℕ → Text → Run Bool
number_is_integral zero str = ok true
number_is_integral (suc length) [] = fault out_of_bounds
number_is_integral (suc length) (c ∷ str) =
    let rest = number_is_integral length str in if is_digit c then rest else ok false
