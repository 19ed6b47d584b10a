-- ===== src/Literal/Character/Spelling.antt =====
-- The spellings of character constants (6.4.4.4 of the C standard), for the theorems about
-- `dbcc_common_char_constant_value` (dbcc-common.c).
use dbcc.Base.{
  ℕ, suc, ◌-◌, ◌≡◌, refl, arith, false, ltb, ok, ◌==◌, length-append, Option, [], ◌∷◌, ◌++◌, length,
}
use dbcc.Literal.Character.{quote, char_size, body, char_constant_value}
use dbcc.Literal.{Text}
use dbcc.Target.{TargetEnvironment}

pub data Prefix : Type 0 where
  no_prefix wide small_u big_u : Prefix

abbrev pub spell_prefix : Prefix → Text
spell_prefix no_prefix = []
spell_prefix wide = b'L' ∷ []
spell_prefix small_u = b'u' ∷ []
spell_prefix big_u = b'U' ∷ []

abbrev pub char_sizeof : TargetEnvironment → Prefix → ℕ
char_sizeof env no_prefix = 1
char_sizeof env wide = env.sizeof_wchar
char_sizeof env small_u = 2
char_sizeof env big_u = 4

abbrev pub quoted : Prefix → Text → Text
quoted p content = spell_prefix p ++ (quote ∷ content ++ (quote ∷ []))

behind_prefix :
    (decode : ℕ → Text → Option (ℕ × ℕ)) (fuel : ℕ) (env : TargetEnvironment) (p size c : ℕ)
    (s rest : Text)
    → char_size env p ≡ ok size
    → (p == quote) ≡ false
    → char_constant_value decode fuel env
        (suc (suc (suc (length (s ++ (quote ∷ []))))))
        (p ∷ quote ∷ c ∷ (s ++ (quote ∷ [])) ++ rest)
      ≡ body decode fuel size (suc (length (s ++ (quote ∷ [])))) (c ∷ (s ++ (quote ∷ [])) ++ rest)
unfolding char_constant_value
behind_prefix decode fuel env p size c s rest sized other =
    let m = length (s ++ (quote ∷ [])) in
    let enough : ltb (suc (suc (suc m))) 3 ≡ false = ground arith in
    let left : suc (suc (suc m)) - 2 ≡ suc m = omega arith in rw (enough, sized, other, left) refl

-- Of the text that follows the opening quote, the code sees the content and the closing quote.
pub char_constant_value-quoted :
    (decode : ℕ → Text → Option (ℕ × ℕ)) (fuel : ℕ) (env : TargetEnvironment) (p : Prefix) (c : ℕ)
    (s rest : Text)
    → char_constant_value decode fuel env (length (quoted p (c ∷ s))) (quoted p (c ∷ s) ++ rest)
      ≡ body decode fuel
          (char_sizeof env p)
          (suc (length (s ++ (quote ∷ []))))
          (c ∷ (s ++ (quote ∷ [])) ++ rest)
unfolding char_constant_value char_size
char_constant_value-quoted decode fuel env no_prefix c s rest =
    let m = length (s ++ (quote ∷ [])) in
    let count = length-append s (quote ∷ []) in
    let enough : ltb (suc (suc m)) 3 ≡ false = ground (arith, count) in
    let left : suc (suc m) - 1 ≡ suc m = omega arith in rw (enough, left) refl
char_constant_value-quoted decode fuel env wide c s rest =
    behind_prefix decode fuel env b'L' env.sizeof_wchar c s rest refl refl
char_constant_value-quoted decode fuel env small_u c s rest =
    behind_prefix decode fuel env b'u' 2 c s rest refl refl
char_constant_value-quoted decode fuel env big_u c s rest =
    behind_prefix decode fuel env b'U' 4 c s rest refl refl
