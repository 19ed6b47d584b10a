-- ===== src/Expr/Binary/Broken.antt =====
-- The handlers of dbcc-expr.c on arithmetic operands that are both constant.
use dbcc.Base.{
  ◌≡◌, ◌≢◌, Bool, true, false, ◌&&◌, some, Run, ok, ap, err, fault, Fault, undefined, ◌>>=◌,
  Bool-cases, inl, inr, arith,
}
use dbcc.CType.Query.{dequalify, is_arithmetic, is_real}
use dbcc.CType.{CType}
use dbcc.Constant.{Constant}
use dbcc.Expr.Arithmetic.{handle_subtract, handle_multiply, handle_remainder}
use dbcc.Expr.Comparison.{handle_relational_operator, handle_equality_operator, fold_comparison}
use dbcc.Expr.Binary.{binary_operator_handler}
use dbcc.Expr.Operands.{data_of, cast_and, raw_data_of, written}
use dbcc.Value.Cast.{cast_value}
use dbcc.Value.Compare.{typed_value_compare}
use dbcc.Error.{ErrorCode, cannot_compare_complex}
use dbcc.Expr.{Operand}
use dbcc.Namespace.{Namespace, get_int_type}
use dbcc.Operator.{BinaryOperator, sub, mul, rem, lt, lteq, gt, gteq, eq, ne}
use dbcc.Expr.Conversion.{usual_arithment_conversion_get_type, convert_dequalified}
use dbcc.Value.Integer.{typed_value_subtract, typed_value_multiply}
use dbcc.Value.Floats.{FloatOps}

-- The run does not end normally.
abbrev pub Fails : {A : Type 0} → Run A → Type 0
Fails {A} r = (a : A) → r ≢ ok a

-- A way to tell a normal end from the others.
ends : {A : Type 0} → Run A → Bool
ends (ok a) = true
ends _ = false

true-ne-false : (false ≡ true) → ⊥
true-ne-false h = ground arith

pub err-Fails : {A : Type 0} (e : ErrorCode) → Fails {A = A} (err e)
unfolding ends
err-Fails {A} e a h = true-ne-false (ap (ends {A = A}) h)

pub fault-Fails : {A : Type 0} (f : Fault) → Fails {A = A} (fault f)
unfolding ends
fault-Fails {A} f a h = true-ne-false (ap (ends {A = A}) h)

pub then-Fails :
    {A B : Type 0} (r : Run A) (f : A → Run B) → ((a : A) → Fails (f a)) → Fails (r >>= f)
then-Fails (ok a) f h = h a
then-Fails (err e) f h = err-Fails e
then-Fails (fault e) f h = fault-Fails e

-- Operands of arithmetic types, both with a constant.
abbrev pub constant_of : CType → Constant → Operand
constant_of t c = record { value_type = t; constant = some c }

-- The operators of which no constants are folded.
pub data Unfolded : Type 0 where
  minus times modulo less less_or_equal greater greater_or_equal equal different : Unfolded

abbrev pub operator : Unfolded → BinaryOperator
operator minus = sub
operator times = mul
operator modulo = rem
operator less = lt
operator less_or_equal = lteq
operator greater = gt
operator greater_or_equal = gteq
operator equal = eq
operator different = ne

-- Four steps and then a fault.
crash4 :
    {A B C D E : Type 0} (r : Run A) (f : A → Run B) (g : A → B → Run C) (h : A → B → C → Run D)
    → Fails {A = E} (r >>= λ a. f a >>= λ b. g a b >>= λ c. h a b c >>= λ d. fault undefined)
crash4 r f g h = then-Fails r _ (λ a.
    then-Fails (f a) _
      (λ b. then-Fails (g a b) _ (λ c. then-Fails (h a b c) _ (λ d. fault-Fails undefined))))

module _ (ops : FloatOps) (ns : Namespace) (a b : CType) (c d : Constant) where
  converted : Run CType
  unfolding convert_dequalified
  converted = convert_dequalified ns (dequalify (dequalify a)) (dequalify (dequalify b))

  subtract-Fails :
      is_arithmetic (dequalify a) ≡ true
      → is_arithmetic (dequalify b) ≡ true
      → Fails (handle_subtract ops ns (constant_of a c) (constant_of b d))
  unfolding handle_subtract converted
  subtract-Fails ha hb =
      rw (ha, hb)
        (crash4 converted (λ t. data_of c) (λ t x. data_of d)
          (λ t x y. cast_and ops ns t (dequalify a) (dequalify b) x y (typed_value_subtract ops t)))

  multiply-Fails :
      is_arithmetic (dequalify a) ≡ true
      → is_arithmetic (dequalify b) ≡ true
      → Fails (handle_multiply ops ns (constant_of a c) (constant_of b d))
  unfolding handle_multiply converted
  multiply-Fails ha hb =
      rw (ha, hb)
        (crash4 converted (λ t. raw_data_of c) (λ t x. raw_data_of d)
          (λ t x y. cast_and ops ns t (dequalify a) (dequalify b) x y (typed_value_multiply ops t)))

  remainder-Fails :
      is_arithmetic (dequalify a) ≡ true
      → is_arithmetic (dequalify b) ≡ true
      → Fails (handle_remainder ops ns (constant_of a c) (constant_of b d))
  unfolding handle_remainder converted
  remainder-Fails ha hb =
      rw (ha, hb)
        (crash4 converted (λ t. data_of c) (λ t x. data_of d)
          (λ t x y. cast_and ops ns t (dequalify a) (dequalify b) x y (typed_value_multiply ops t)))

  comparison-Fails :
      (op : BinaryOperator) → Fails (fold_comparison ops ns op (dequalify a) (dequalify b) c d)
  unfolding fold_comparison
  comparison-Fails op = then-Fails (data_of c) _ (λ x. then-Fails (data_of d) _ (λ y.
      then-Fails (usual_arithment_conversion_get_type ns (dequalify a) (dequalify b)) _ (λ t.
        then-Fails (cast_value ops t (dequalify a) x) _ (λ xo. then-Fails (written xo) _ (λ p.
          then-Fails (cast_value ops t (dequalify b) y) _ (λ yo. then-Fails (written yo) _ (λ q.
            then-Fails (get_int_type ns) _ (λ int.
              then-Fails (typed_value_compare ops int t op p q) _
                (λ v. fault-Fails undefined)))))))))

  equality-Fails :
      (op : BinaryOperator)
      → is_arithmetic (dequalify a) ≡ true
      → is_arithmetic (dequalify b) ≡ true
      → Fails (handle_equality_operator ops ns op (constant_of a c) (constant_of b d))
  unfolding handle_equality_operator fold_comparison usual_arithment_conversion_get_type
  equality-Fails op ha hb =
      rw (ha, hb) (then-Fails (get_int_type ns) _ (λ int. rw (ha, hb) at (comparison-Fails op)))

  relational-Fails :
      (op : BinaryOperator)
      → is_arithmetic (dequalify a) ≡ true
      → is_arithmetic (dequalify b) ≡ true
      → Fails (handle_relational_operator ops ns op (constant_of a c) (constant_of b d))
  unfolding handle_relational_operator fold_comparison usual_arithment_conversion_get_type
  relational-Fails op ha hb =
      rw (ha, hb)
        (elim (Bool-cases (is_real (dequalify a) && is_real (dequalify b))) [
          | inl e ↦
              rw e (then-Fails (get_int_type ns) _ (λ int. rw (ha, hb) at (comparison-Fails op)))
          | inr e ↦ rw e (err-Fails cannot_compare_complex)
        ])

  -- For constant operands of arithmetic types, the handlers of `-`, `*`, `%`, of the relations and
  -- of the equalities never return an expression.
  pub binary_operator_handler-Fails :
      (u : Unfolded)
      → is_arithmetic (dequalify a) ≡ true
      → is_arithmetic (dequalify b) ≡ true
      → Fails (binary_operator_handler ops ns (operator u) (constant_of a c) (constant_of b d))
  unfolding binary_operator_handler
  binary_operator_handler-Fails minus = subtract-Fails
  binary_operator_handler-Fails times = multiply-Fails
  binary_operator_handler-Fails modulo = remainder-Fails
  binary_operator_handler-Fails less = relational-Fails lt
  binary_operator_handler-Fails less_or_equal = relational-Fails lteq
  binary_operator_handler-Fails greater = relational-Fails gt
  binary_operator_handler-Fails greater_or_equal = relational-Fails gteq
  binary_operator_handler-Fails equal = equality-Fails eq
  binary_operator_handler-Fails different = equality-Fails ne
