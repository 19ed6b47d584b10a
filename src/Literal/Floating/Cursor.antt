-- ===== src/Literal/Floating/Cursor.antt =====
-- How far `dbcc_common_floating_point_get_info` (dbcc-common.c) gets in a decimal constant.
use dbcc.Base.{
  ℕ, zero, suc, ◌+◌, ◌-◌, ◌<◌, ◌≤◌, ◌≡◌, refl, sym, ◌∙◌, ap, arith, Bool, true, false, [], ◌∷◌,
  ◌++◌, length, drop, ltb, eq→==, ◌==◌, ok, Bool-cases, inl, inr,
}
use dbcc.Literal.Floating.{
  test_end, scan, is_sign, decimal_float, unsigned_float, floating_point_get_info,
}
use dbcc.Literal.Integer.Forms.{All, span-All}
use dbcc.Literal.{Text, char_at, is_digit, span}

pub data Sign : Type 0 where
  no_sign plus minus : Sign

abbrev pub spell_sign : Sign → Text
spell_sign no_sign = []
spell_sign plus = b'+' ∷ []
spell_sign minus = b'-' ∷ []

pub drop_add : (k n : ℕ) (s : Text) → drop (k + n) s ≡ drop n (drop k s)
drop_add zero n s = let e : 0 + n ≡ n = omega arith in rw e refl
drop_add (suc k) n [] = let e : suc k + n ≡ suc (k + n) = omega arith in rw e (sym (drop_nil n))
  where
    drop_nil : (m : ℕ) → drop {A = ℕ} m [] ≡ []
    drop_nil zero = refl
    drop_nil (suc m) = refl
drop_add (suc k) n (c ∷ s) = let e : suc k + n ≡ suc (k + n) = omega arith in rw e (drop_add k n s)

pub drop_length : (ds s : Text) → drop (length ds) (ds ++ s) ≡ s
drop_length [] s = refl
drop_length (d ∷ ds) s = drop_length ds s

stops : (test : ℕ → Bool) (n c : ℕ) (s : Text) → test c ≡ false → span test n (c ∷ s) ≡ ok 0
unfolding span
stops test zero c s h = refl
stops test (suc n) c s h = rw h refl

-- The digits up to something else are skipped.
pub scan_digits :
    (n skip : ℕ) (str ds s : Text) (c : ℕ)
    → drop skip str ≡ ds ++ (c ∷ s)
    → All is_digit ds
    → is_digit c ≡ false
    → skip + length ds ≤ n
    → (scan is_digit n str skip ≡ ok (skip + length ds)) × (drop (skip + length ds) str ≡ c ∷ s)
unfolding scan
scan_digits n skip str ds s c here all stop h =
    let left = n - (skip + length ds) in
    let gone : (n - skip) ≡ length ds + left = omega arith in
    let run = span-All is_digit ds (c ∷ s) left all (stops is_digit left c s stop) in
    (
      rw (here, gone, run) refl,
      drop_add skip (length ds) str ∙ ap (λ t. drop (length ds) t) here ∙ drop_length ds (c ∷ s),
    )

-- A constant starts with a digit or a period.
abbrev pub Begins : Text → ℕ → Type 0
Begins [] c = c ≡ b'.'
Begins (d ∷ ds) c = Unit

second :
    (ds s : Text) (c : ℕ)
    → All is_digit ds
    → (c == b'x') ≡ false
    → (y : ℕ) × (char_at (ds ++ (c ∷ s)) 0 ≡ ok y) × ((y == b'x') ≡ false)
second [] s c all other = (c, refl, other)
second (d ∷ ds) s c all other = (d, refl, ground (arith, all.0))

-- Behind the sign a decimal constant is not taken for a hexadecimal one.
pub unsigned_float-decimal :
    (n skip : ℕ) (str ds s : Text) (c : ℕ)
    → drop skip str ≡ ds ++ (c ∷ s)
    → All is_digit ds
    → Begins ds c
    → (c == b'x') ≡ false
    → unsigned_float n str skip ≡ decimal_float n str skip
unfolding unsigned_float
unsigned_float-decimal n skip str [] s c here all first other =
    let period : (c == b'.') ≡ true = eq→== c b'.' first in
    let nought : (c == b'0') ≡ false = ground (arith, first) in
    elim (Bool-cases (ltb (2 + skip) n)) [
      | inl e ↦ rw (here, e, nought, period) (ground arith)
      | inr e ↦ rw (here, e, period) (ground arith)
    ]
unsigned_float-decimal n skip str (d ∷ ds) s c here all first other =
    let (y, there, no_x) = second ds s c all.1 other in
    let ahead : drop (skip + 1) str ≡ ds ++ (c ∷ s) =
      drop_add skip 1 str ∙ ap (λ t. drop 1 t) here in
    elim (Bool-cases (ltb (2 + skip) n)) [
      | inl e ↦ elim (Bool-cases (d == b'0')) [
        | inl z ↦ rw (here, e, z, ahead, there, no_x, all.0) refl
        | inr z ↦ rw (here, e, z, all.0) refl
      ]
      | inr e ↦ rw (here, e, all.0) refl
    ]

no_sign_first :
    (ds s : Text) (c : ℕ)
    → All is_digit ds
    → Begins ds c
    → (y : ℕ) × (char_at (ds ++ (c ∷ s)) 0 ≡ ok y) × (is_sign y ≡ false)
no_sign_first [] s c all first = (c, refl, ground (arith, first))
no_sign_first (d ∷ ds) s c all first = (d, refl, ground (arith, all.0))

pub floating_point_get_info-decimal :
    (n : ℕ) (sign : Sign) (ds s : Text) (c : ℕ)
    → All is_digit ds
    → Begins ds c
    → (c == b'x') ≡ false
    → length (spell_sign sign) < n
    → floating_point_get_info n (spell_sign sign ++ (ds ++ (c ∷ s)))
      ≡ decimal_float n (spell_sign sign ++ (ds ++ (c ∷ s))) (length (spell_sign sign))
unfolding floating_point_get_info test_end
floating_point_get_info-decimal n no_sign ds s c all first other h =
    let (y, there, none_yet) = no_sign_first ds s c all first in
    let left : (0 == n) ≡ false = ground (arith, h) in
    rw (there, none_yet, left)
      (unsigned_float-decimal n 0 (ds ++ (c ∷ s)) ds s c refl all first other)
floating_point_get_info-decimal n plus ds s c all first other h =
    let left : (1 == n) ≡ false = ground (arith, h) in
    rw left (unsigned_float-decimal n 1 (b'+' ∷ (ds ++ (c ∷ s))) ds s c refl all first other)
floating_point_get_info-decimal n minus ds s c all first other h =
    let left : (1 == n) ≡ false = ground (arith, h) in
    rw left (unsigned_float-decimal n 1 (b'-' ∷ (ds ++ (c ∷ s))) ds s c refl all first other)
