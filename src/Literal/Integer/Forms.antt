-- ===== src/Literal/Integer/Forms.antt =====
-- The spellings of decimal and hexadecimal constants (6.4.4.1 of the C standard), and
-- `dbcc_common_integer_get_info` (dbcc-common.c) on them.
use dbcc.Base.{ℕ, suc, ◌+◌, ◌≡◌, refl, arith, Bool, true, false, [], ◌∷◌, ◌++◌, length, ok}
use dbcc.Literal.{Text, is_digit, is_hex_digit, between, span}
use dbcc.Target.{TargetEnvironment}

pub data UnsignedSuffix : Type 0 where
  no_u small_u big_u : UnsignedSuffix

pub data LongSuffix : Type 0 where
  no_l small_l big_l small_ll big_ll : LongSuffix

pub data Digits : Type 0 where
  decimal_digits : ℕ → Text → Digits
  hexadecimal_digits : ℕ → Text → Digits

abbrev pub spell_u : UnsignedSuffix → Text
spell_u no_u = []
spell_u small_u = b'u' ∷ []
spell_u big_u = b'U' ∷ []

abbrev pub spell_l : LongSuffix → Text
spell_l no_l = []
spell_l small_l = b'l' ∷ []
spell_l big_l = b'L' ∷ []
spell_l small_ll = b'l' ∷ b'l' ∷ []
spell_l big_ll = b'L' ∷ b'L' ∷ []

abbrev pub spell_suffix : UnsignedSuffix → LongSuffix → Text
spell_suffix u l = spell_u u ++ spell_l l

abbrev pub spell_digits : Digits → Text
spell_digits (decimal_digits d ds) = d ∷ ds
spell_digits (hexadecimal_digits h hs) = b'0' ∷ b'x' ∷ h ∷ hs

abbrev pub spell : Digits → UnsignedSuffix → LongSuffix → Text
spell n u l = spell_digits n ++ spell_suffix u l

abbrev pub All : (ℕ → Bool) → Text → Type 0
All test [] = Unit
All test (c ∷ s) = (test c ≡ true) × All test s

abbrev pub IsNumber : Digits → Type 0
IsNumber (decimal_digits d ds) = (between b'1' b'9' d ≡ true) × All is_digit ds
IsNumber (hexadecimal_digits h hs) = All is_hex_digit (h ∷ hs)

abbrev pub is_signed : UnsignedSuffix → Bool
is_signed no_u = true
is_signed _ = false

abbrev pub size : TargetEnvironment → LongSuffix → ℕ
size env no_l = env.sizeof_int
size env small_l = env.sizeof_long_int
size env big_l = env.sizeof_long_int
size env small_ll = env.sizeof_long_long_int
size env big_ll = env.sizeof_long_long_int

pub span-All :
    (test : ℕ → Bool) (ds t : Text) (n : ℕ)
    → All test ds
    → span test n t ≡ ok 0
    → span test (length ds + n) (ds ++ t) ≡ ok (length ds)
unfolding span
span-All test [] t n h stop = let e : 0 + n ≡ n = omega arith in rw e stop
span-All test (d ∷ ds) t n h stop =
    let e : suc (length ds) + n ≡ suc (length ds + n) = omega arith in
    rw (e, h.0, span-All test ds t n h.1 stop) refl

module _ (env : TargetEnvironment) (u : UnsignedSuffix) (l : LongSuffix) (rest : Text) where
  abbrev tail : Text
  tail = spell_suffix u l
