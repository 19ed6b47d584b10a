-- ===== src/Literal/Floating/Reads.antt =====
-- How far `dbcc_common_floating_point_get_info` (dbcc-common.c) reads.
use dbcc.Base.{
  ℕ, zero, suc, ◌+◌, ◌-◌, ◌<◌, ◌≤◌, ◌≡◌, refl, arith, Bool, false, not, ◌&&◌, ◌||◌, [], ◌∷◌, length,
  drop, ltb, ◌==◌, if◌then◌else◌, Run, ok, err, fault, ◌>>=◌, Bool-cases, inl, inr,
}
use dbcc.Error.{bad_number_constant}
use dbcc.Literal.Floating.{
  peek, test_end, scan, is_sign, skip_sign, exponent, finish, hexadecimal_float, decimal_float,
  unsigned_float, floating_point_get_info,
}
use dbcc.Literal.Integer.Octal.{span-Returns}
use dbcc.Literal.{Text, char_at, is_digit, is_hex_digit}

-- No read past the end of the text; a result satisfies `Post`.
abbrev pub Stays {ℓ} : {A : Type ℓ} → Run A → (A → Type 0) → Type 0
Stays (ok a) Post = Post a
Stays (err code) Post = Unit
Stays (fault kind) Post = ⊥

bind-Stays {ℓ κ} :
    {A : Type ℓ} {B : Type κ} (Mid : A → Type 0) (Post : B → Type 0) (run : Run A)
    (next : A → Run B)
    → Stays run Mid
    → ((a : A) → Mid a → Stays (next a) Post)
    → Stays (run >>= next) Post
bind-Stays Mid Post (ok a) next h step = step a h
bind-Stays Mid Post (err code) next h step = tt
bind-Stays Mid Post (fault kind) next h step = h

forget {ℓ} :
    {A : Type ℓ} (run : Run A) (Post : A → Type 0) → Stays run Post → Stays run (λ a. Unit {0})
forget (ok a) Post h = tt
forget (err code) Post h = tt
forget (fault kind) Post h = h

length-drop : (k : ℕ) (s : Text) → length (drop k s) ≡ length s - k
length-drop zero s = omega arith
length-drop (suc k) [] = omega arith
length-drop (suc k) (c ∷ s) = omega (arith, length-drop k s)

first_byte : (s : Text) → 0 < length s → (c : ℕ) × (char_at s 0 ≡ ok c)
first_byte [] h = absurd (omega arith)
first_byte (c ∷ s) h = (c, refl)

peek-Returns : (str : Text) (skip : ℕ) → skip < length str → (c : ℕ) × (peek str skip ≡ ok c)
peek-Returns str skip h =
    let (c, e) = first_byte (drop skip str) (omega (arith, length-drop skip str)) in (c, e)

scan-Stays :
    (test : ℕ → Bool) (n : ℕ) (str : Text) (skip : ℕ)
    → n ≤ length str
    → Stays (scan test n str skip) (λ at. skip ≤ n → at ≤ n)
unfolding scan
scan-Stays test n str skip h =
    let (l, run, le) =
      span-Returns test (n - skip) (drop skip str) (omega (arith, length-drop skip str)) in
    rw run (λ h. omega arith)

module _ (n : ℕ) (str : Text) (room : n + 2 ≤ length str) where
  skip_sign-Stays : (skip : ℕ) → skip ≤ n + 1 → Stays (skip_sign n str skip) (λ at. Unit {0})
  unfolding skip_sign test_end
  skip_sign-Stays skip h =
      let (c, run) = peek-Returns str skip (omega arith) in
      elim (Bool-cases (is_sign c)) [
        | inl s ↦ elim (Bool-cases (skip + 1 == n)) [
          | inl e ↦ rw (run, s, e) tt
          | inr e ↦ rw (run, s, e) tt
        ]
        | inr s ↦ rw (run, s) tt
      ]

  finish-Stays : (at : ℕ) → Stays (finish n at) (λ r. Unit {0})
  unfolding finish
  finish-Stays at = elim (Bool-cases (ltb at n)) [ inl e ↦ rw e tt | inr e ↦ rw e tt ]

  exponent-Stays :
      (small big skip : ℕ) → skip ≤ n → Stays (exponent small big n str skip) (λ at. Unit {0})
  unfolding exponent test_end
  exponent-Stays small big skip h =
      let (c, run) = peek-Returns str skip (omega arith) in
      elim (Bool-cases (ltb 0 n && (c == small || c == big))) [
        | inl s ↦ elim (Bool-cases (skip + 1 == n)) [
          | inl e ↦ rw (run, s, e) tt
          | inr e ↦
              rw (run, s, e)
                (bind-Stays (λ at. Unit {0}) (λ at. Unit {0}) (skip_sign n str (skip + 1)) _
                  (skip_sign-Stays (skip + 1) (omega arith))
                  (λ at u.
                    forget (scan is_digit n str at) _ (scan-Stays is_digit n str at (omega arith))))
        ]
        | inr s ↦ rw (run, s) tt
      ]

  decimal_float-Stays : (skip : ℕ) → skip ≤ n → Stays (decimal_float n str skip) (λ r. Unit {0})
  unfolding decimal_float
  decimal_float-Stays skip h =
      bind-Stays (λ at. skip ≤ n → at ≤ n) (λ r. Unit {0}) (scan is_digit n str skip) _
        (scan-Stays is_digit n str skip (omega arith))
        (λ at le.
          bind-Stays (λ at. Unit {0}) (λ r. Unit {0}) (exponent b'e' b'E' n str at) _
            (exponent-Stays b'e' b'E' at (le h)) (λ end u. finish-Stays end))

  hexadecimal_float-Stays :
      (skip : ℕ) → skip ≤ n → Stays (hexadecimal_float n str skip) (λ r. Unit {0})
  unfolding hexadecimal_float test_end
  hexadecimal_float-Stays skip h = elim (Bool-cases (skip == n)) [
    | inl e ↦ rw e tt
    | inr e ↦ rw e (
        bind-Stays (λ at. skip ≤ n → at ≤ n) (λ r. Unit {0}) (scan is_hex_digit n str skip) _
          (scan-Stays is_hex_digit n str skip (omega arith))
          (λ at le.
            bind-Stays (λ at. Unit {0}) (λ r. Unit {0}) (exponent b'p' b'P' n str at) _
              (exponent-Stays b'p' b'P' at (le h)) (λ end u. finish-Stays end)))
  ]

  decimal_or_not :
      (skip c : ℕ)
      → skip ≤ n
      → Stays
          (if not (is_digit c) && not (c == b'.')
            then err bad_number_constant
            else decimal_float n str skip)
          (λ r. Unit {0})
  decimal_or_not skip c h = elim (Bool-cases (not (is_digit c) && not (c == b'.'))) [
    | inl e ↦ rw e tt
    | inr e ↦ rw e (decimal_float-Stays skip h)
  ]

  unsigned_float-Stays : (skip : ℕ) → skip ≤ n → Stays (unsigned_float n str skip) (λ r. Unit {0})
  unfolding unsigned_float
  unsigned_float-Stays skip h =
      let (c, run) = peek-Returns str skip (omega arith) in
      let (d, next) = peek-Returns str (skip + 1) (omega arith) in
      elim (Bool-cases (ltb (2 + skip) n)) [
        | inl e ↦ elim (Bool-cases (c == b'0')) [
          | inl z ↦ elim (Bool-cases (d == b'x')) [
            | inl x ↦
                rw (run, e, z, next, x) (hexadecimal_float-Stays (skip + 2) (ground (arith, e)))
            | inr x ↦ rw (run, e, z, next, x) (decimal_or_not skip c h)
          ]
          | inr z ↦ rw (run, e, z) (decimal_or_not skip c h)
        ]
        | inr e ↦ rw (run, e) (decimal_or_not skip c h)
      ]

-- On a constant of at least one byte that two more bytes follow,
-- `dbcc_common_floating_point_get_info` reads no byte outside the text.
pub floating_point_get_info-Stays :
    (n : ℕ) (str : Text)
    → 1 ≤ n
    → n + 2 ≤ length str
    → Stays (floating_point_get_info n str) (λ r. Unit {0})
unfolding floating_point_get_info test_end
floating_point_get_info-Stays n str some_byte room =
    let (c, run) = peek-Returns str 0 (omega arith) in
    elim (Bool-cases (is_sign c)) [
      | inl s ↦ elim (Bool-cases (1 == n)) [
        | inl e ↦ rw (run, s, e) tt
        | inr e ↦ rw (run, s, e) (unsigned_float-Stays n str room 1 some_byte)
      ]
      | inr s ↦
          let more : (0 == n) ≡ false = ground arith in
          rw (run, s, more) (unsigned_float-Stays n str room 0 (omega arith))
    ]
