-- ===== src/Literal/Floating/Forms.antt =====
-- The decimal constants that `dbcc_common_floating_point_get_info` (dbcc-common.c) accepts.
use mathlib.Core.List.{append_assoc}
use dbcc.Base.{
  ℕ, sym, Bool-cases, inl, inr, ◌+◌, ◌<◌, ◌≡◌, refl, ◌∙◌, ap, arith, true, false, ◌||◌, none, [],
  ◌∷◌, ◌++◌, length, drop, ltb, ◌==◌, ok, length-append,
}
use dbcc.Literal.Floating.Cursor.{
  Sign, no_sign, plus, minus, spell_sign, drop_add, drop_length, scan_digits,
  floating_point_get_info-decimal,
}
use dbcc.Literal.Floating.{
  test_end, skip_sign, is_sign, exponent, finish, decimal_float, floating_point_get_info,
}
use dbcc.Literal.Integer.Forms.{All}
use dbcc.Literal.{Text, is_digit, is_alphanum}

-- An exponent has a letter, a sign and digits, of which the first is given alone.
pub data Exponent : Type 0 where
  no_exponent : Exponent
  small_e big_e : Sign → ℕ → Text → Exponent

abbrev pub spell_exponent : Exponent → Text
spell_exponent no_exponent = []
spell_exponent (small_e sign x xs) = b'e' ∷ (spell_sign sign ++ (x ∷ xs))
spell_exponent (big_e sign x xs) = b'E' ∷ (spell_sign sign ++ (x ∷ xs))

abbrev pub IsExponent : Exponent → Type 0
IsExponent no_exponent = Unit
IsExponent (small_e sign x xs) = All is_digit (x ∷ xs)
IsExponent (big_e sign x xs) = All is_digit (x ∷ xs)

skip_sign_lem :
    (n at : ℕ) (str s : Text) (sign : Sign) (x : ℕ)
    → drop at str ≡ spell_sign sign ++ (x ∷ s)
    → is_digit x ≡ true
    → at + length (spell_sign sign) < n
    → skip_sign n str at ≡ ok (at + length (spell_sign sign))
unfolding skip_sign test_end
skip_sign_lem n at str s no_sign x here digit h =
    let other : is_sign x ≡ false = ground (arith, digit) in
    let e : at + 0 ≡ at = omega arith in rw (here, other, e) refl
skip_sign_lem n at str s plus x here digit h =
    let more : (at + 1 == n) ≡ false = ground arith in rw (here, more) refl
skip_sign_lem n at str s minus x here digit h =
    let more : (at + 1 == n) ≡ false = ground arith in rw (here, more) refl

-- Behind the digits before the exponent.
exponent_lem :
    (n at : ℕ) (str s : Text) (e : ℕ) (sign : Sign) (x : ℕ) (xs : Text) (c : ℕ)
    → drop at str ≡ e ∷ (spell_sign sign ++ ((x ∷ xs) ++ (c ∷ s)))
    → (e == b'e' || e == b'E') ≡ true
    → All is_digit (x ∷ xs)
    → is_digit c ≡ false
    → n ≡ at + 1 + length (spell_sign sign) + length (x ∷ xs)
    → exponent b'e' b'E' n str at ≡ ok n
unfolding exponent test_end
exponent_lem n at str s e sign x xs c here letter all stop count =
    let some_length : ltb 0 n ≡ true = ground arith in
    let more : (at + 1 == n) ≡ false = ground arith in
    let next : drop (at + 1) str ≡ spell_sign sign ++ ((x ∷ xs) ++ (c ∷ s)) =
      drop_add at 1 str ∙ ap (λ t. drop 1 t) here in
    let signed = skip_sign_lem n (at + 1) str (xs ++ (c ∷ s)) sign x next all.0 (omega arith) in
    let digits : drop (at + 1 + length (spell_sign sign)) str ≡ (x ∷ xs) ++ (c ∷ s) =
      drop_add (at + 1) (length (spell_sign sign)) str
      ∙ ap (λ t. drop (length (spell_sign sign)) t) next
      ∙ drop_length (spell_sign sign) ((x ∷ xs) ++ (c ∷ s)) in
    let (run, there) =
      scan_digits n (at + 1 + length (spell_sign sign)) str (x ∷ xs) s c digits all stop
        (omega arith) in
    rw (here, some_length, letter, more, signed, run, ← count) refl

no_digit : (c : ℕ) → is_alphanum c ≡ false → is_digit c ≡ false
unfolding is_alphanum
no_digit c h = ground (arith, h)

no_letter :
    (c : ℕ) → is_alphanum c ≡ false → ((c == b'e' || c == b'E') ≡ false) × ((c == b'x') ≡ false)
unfolding is_alphanum
no_letter c h = (ground (arith, h), ground (arith, h))

behind_digits :
    (ex : Exponent) (c : ℕ) (s : Text)
    → is_alphanum c ≡ false
    → (y : ℕ) × (t : Text) × (spell_exponent ex ++ (c ∷ s) ≡ y ∷ t) × ((y == b'x') ≡ false)
behind_digits no_exponent c s h = (c, s, refl, (no_letter c h).1)
behind_digits (small_e sign x xs) c s h = (b'e', _, refl, refl)
behind_digits (big_e sign x xs) c s h = (b'E', _, refl, refl)

with_exponent :
    (n at : ℕ) (str ds s : Text) (e : ℕ) (sign : Sign) (x : ℕ) (xs : Text) (c : ℕ)
    → drop at str ≡ ds ++ (e ∷ (spell_sign sign ++ ((x ∷ xs) ++ (c ∷ s))))
    → (e == b'e' || e == b'E') ≡ true
    → is_digit e ≡ false
    → All is_digit ds
    → All is_digit (x ∷ xs)
    → is_digit c ≡ false
    → n ≡ at + length ds + 1 + length (spell_sign sign) + length (x ∷ xs)
    → decimal_float n str at ≡ ok none
unfolding decimal_float finish
with_exponent n at str ds s e sign x xs c here letter e_stops all exponent_all stop count =
    let (run, there) =
      scan_digits n at str ds (spell_sign sign ++ ((x ∷ xs) ++ (c ∷ s))) e here all e_stops
        (omega arith) in
    let whole =
      exponent_lem n (at + length ds) str s e sign x xs c there letter exponent_all stop count in
    let end : ltb n n ≡ false = ground arith in rw (run, whole, end) refl

decimal_float_lem :
    (n at : ℕ) (str ds s : Text) (ex : Exponent) (c : ℕ)
    → drop at str ≡ ds ++ (spell_exponent ex ++ (c ∷ s))
    → All is_digit ds
    → IsExponent ex
    → is_alphanum c ≡ false
    → n ≡ at + length ds + length (spell_exponent ex)
    → decimal_float n str at ≡ ok none
unfolding decimal_float finish exponent
decimal_float_lem n at str ds s no_exponent c here all exponent_all stop count =
    let (run, there) = scan_digits n at str ds s c here all (no_digit c stop) (omega arith) in
    let whole : at + length ds ≡ n = omega arith in
    let end : ltb n n ≡ false = ground arith in
    let plain = (no_letter c stop).0 in
    elim (Bool-cases (ltb 0 n)) [
      | inl e ↦ rw (run, there, plain, e, whole, end) refl
      | inr e ↦ rw (run, there, plain, e, whole, end) refl
    ]
decimal_float_lem n at str ds s (small_e sign x xs) c here all exponent_all stop count =
    with_exponent n at str ds s b'e' sign x xs c
      (here ∙ ap (λ t. ds ++ (b'e' ∷ t)) (append_assoc (spell_sign sign) (x ∷ xs) (c ∷ s))) refl
      refl all exponent_all (no_digit c stop)
      (omega (arith, length-append (spell_sign sign) (x ∷ xs)))
decimal_float_lem n at str ds s (big_e sign x xs) c here all exponent_all stop count =
    with_exponent n at str ds s b'E' sign x xs c
      (here ∙ ap (λ t. ds ++ (b'E' ∷ t)) (append_assoc (spell_sign sign) (x ∷ xs) (c ∷ s))) refl
      refl all exponent_all (no_digit c stop)
      (omega (arith, length-append (spell_sign sign) (x ∷ xs)))

abbrev pub spell_decimal : Sign → ℕ → Text → Exponent → Text
spell_decimal sign d ds ex = spell_sign sign ++ ((d ∷ ds) ++ spell_exponent ex)

-- A decimal constant of digits with an optional sign and an optional exponent, with no letter or
-- digit behind it, is accepted by `dbcc_common_floating_point_get_info`, and its type is never
-- written.
pub floating_point_get_info_lem :
    (sign : Sign) (d : ℕ) (ds : Text) (ex : Exponent) (c : ℕ) (s : Text)
    → All is_digit (d ∷ ds)
    → IsExponent ex
    → is_alphanum c ≡ false
    → floating_point_get_info
        (length (spell_decimal sign d ds ex))
        (spell_decimal sign d ds ex ++ (c ∷ s))
      ≡ ok none
floating_point_get_info_lem sign d ds ex c s all exponent_all stop =
    let n = length (spell_decimal sign d ds ex) in
    let str : Text = spell_sign sign ++ ((d ∷ ds) ++ (spell_exponent ex ++ (c ∷ s))) in
    let text : spell_decimal sign d ds ex ++ (c ∷ s) ≡ str =
      append_assoc (spell_sign sign) ((d ∷ ds) ++ spell_exponent ex) (c ∷ s)
      ∙ ap (λ t. spell_sign sign ++ t) (append_assoc (d ∷ ds) (spell_exponent ex) (c ∷ s)) in
    let count : n ≡ length (spell_sign sign) + length (d ∷ ds) + length (spell_exponent ex) =
      omega (
        arith,
        length-append (spell_sign sign) ((d ∷ ds) ++ spell_exponent ex),
        length-append (d ∷ ds) (spell_exponent ex),
      ) in
    let (y, t, follows, no_x) = behind_digits ex c s stop in
    ap (floating_point_get_info n) text
    ∙ ap (λ u. floating_point_get_info n (spell_sign sign ++ ((d ∷ ds) ++ u))) follows
    ∙ floating_point_get_info-decimal n sign (d ∷ ds) t y all (tt) no_x (omega (arith, count))
    ∙ ap (λ u. decimal_float n (spell_sign sign ++ ((d ∷ ds) ++ u)) (length (spell_sign sign)))
        (sym follows)
    ∙ decimal_float_lem n (length (spell_sign sign)) str (d ∷ ds) s ex c
        (drop_length (spell_sign sign) ((d ∷ ds) ++ (spell_exponent ex ++ (c ∷ s)))) all
        exponent_all stop count
