-- ===== src/Expr/Conversion/Symmetry.antt =====
-- The usual arithmetic conversions (dbcc-expr.c) with their operands swapped.
use dbcc.Base.{
  ℕ, ◌≡◌, refl, arith, Bool, true, false, ◌&&◌, ◌||◌, ltb, if◌then◌else◌, max, Run, ok, fault,
  ◌>>=◌, assertion,
}
use dbcc.CType.Query.{is_arithmetic, dequalify, is_complex}
use dbcc.CType.{
  CType, FloatType, void_type, bool_type, float_type, array_type, variable_length_array_type,
  struct_type, union_type, pointer_type, typedef_type, qualified_type, function_type,
  kr_function_type, int_type, enum_type,
}
use dbcc.Expr.Conversion.{
  real_type_is_long_double, real_type_is_double, real_type_is_float, get_int_or_enum_is_signed,
  float_with, by_domain, unsigned_size, convert_integers, convert_dequalified,
  usual_arithment_conversion_get_type,
}
use dbcc.Namespace.{Namespace, get_integer_type}

or_comm : (a b : Bool) → (a || b) ≡ (b || a)
or_comm true true = refl
or_comm true false = refl
or_comm false true = refl
or_comm false false = refl

and_comm : (a b : Bool) → (a && b) ≡ (b && a)
and_comm true true = refl
and_comm true false = refl
and_comm false true = refl
and_comm false false = refl

by_domain_comm :
    (ns : Namespace) (a b : CType) (c r : FloatType) → by_domain ns a b c r ≡ by_domain ns b a c r
unfolding by_domain
by_domain_comm ns a b c r = rw (or_comm (is_complex a) (is_complex b)) refl

max_comm : (a b : ℕ) → max a b ≡ max b a
max_comm a b = omega arith

-- The rules for integers, over the results of the two calls.
rules : Namespace → CType → CType → Run Bool → Run Bool → Run CType
rules ns a b x y = x >>= λ p. y >>= λ q.
    (if p
      then (if q
          then get_integer_type ns true (max (unsigned_size a) (unsigned_size b))
          else if ltb (unsigned_size b) (unsigned_size a)
          then ok a
          else get_integer_type ns false (max (unsigned_size a) (unsigned_size b)))
      else (if q
          then (if ltb (unsigned_size a) (unsigned_size b)
              then ok b
              else get_integer_type ns false (max (unsigned_size a) (unsigned_size b)))
          else get_integer_type ns false (max (unsigned_size a) (unsigned_size b))))

-- No call reports an error.
Quiet : Run Bool → Type 0
Quiet (ok b) = Unit
Quiet (Run.err e) = ⊥
Quiet (fault f) = f ≡ assertion

get_int_or_enum_is_signed-Quiet : (t : CType) → Quiet (get_int_or_enum_is_signed t)
unfolding get_int_or_enum_is_signed Quiet
get_int_or_enum_is_signed-Quiet (void_type b) = refl
get_int_or_enum_is_signed-Quiet (bool_type b) = refl
get_int_or_enum_is_signed-Quiet (float_type b f c) = refl
get_int_or_enum_is_signed-Quiet (array_type b n e) = refl
get_int_or_enum_is_signed-Quiet (variable_length_array_type b e) = refl
get_int_or_enum_is_signed-Quiet (struct_type b t m x i) = refl
get_int_or_enum_is_signed-Quiet (union_type b t m x i) = refl
get_int_or_enum_is_signed-Quiet (pointer_type b t) = refl
get_int_or_enum_is_signed-Quiet (typedef_type b t) = refl
get_int_or_enum_is_signed-Quiet (qualified_type b t q) = refl
get_int_or_enum_is_signed-Quiet (function_type b r p v) = refl
get_int_or_enum_is_signed-Quiet (kr_function_type b r p) = refl
get_int_or_enum_is_signed-Quiet (int_type b s) = tt
get_int_or_enum_is_signed-Quiet (enum_type b t s v x y) = tt

rules_comm :
    (ns : Namespace) (a b : CType) (x y : Run Bool)
    → Quiet x
    → Quiet y
    → rules ns a b x y ≡ rules ns b a y x
unfolding rules Quiet
rules_comm ns a b (ok true) (ok true) hx hy = rw (max_comm (unsigned_size a) (unsigned_size b)) refl
rules_comm ns a b (ok true) (ok false) hx hy =
    rw (max_comm (unsigned_size a) (unsigned_size b)) refl
rules_comm ns a b (ok false) (ok true) hx hy =
    rw (max_comm (unsigned_size a) (unsigned_size b)) refl
rules_comm ns a b (ok false) (ok false) hx hy =
    rw (max_comm (unsigned_size a) (unsigned_size b)) refl
rules_comm ns a b (ok p) (fault f) hx hy = refl
rules_comm ns a b (ok p) (Run.err e) hx hy = elim hy [ ]
rules_comm ns a b (Run.err e) y hx hy = elim hx [ ]
rules_comm ns a b (fault f) (ok q) hx hy = refl
rules_comm ns a b (fault f) (Run.err e) hx hy = elim hy [ ]
rules_comm ns a b (fault f) (fault g) hx hy = rw (hx, hy) refl

convert_integers_comm :
    (ns : Namespace) (a b : CType) → convert_integers ns a b ≡ convert_integers ns b a
unfolding convert_integers rules
convert_integers_comm ns a b =
    rules_comm ns a b (get_int_or_enum_is_signed a) (get_int_or_enum_is_signed b)
      (get_int_or_enum_is_signed-Quiet a) (get_int_or_enum_is_signed-Quiet b)

-- The result of the usual arithmetic conversions, failures included, does not depend on the order
-- of the operands.
pub usual_arithment_conversion_get_type_comm :
    (ns : Namespace) (a b : CType)
    → usual_arithment_conversion_get_type ns a b ≡ usual_arithment_conversion_get_type ns b a
unfolding usual_arithment_conversion_get_type convert_dequalified
usual_arithment_conversion_get_type_comm ns a b =
    let x = dequalify a in
    let y = dequalify b in
    rw
      (
        and_comm (is_arithmetic a) (is_arithmetic b),
        or_comm (float_with real_type_is_long_double x) (float_with real_type_is_long_double y),
        or_comm (float_with real_type_is_double x) (float_with real_type_is_double y),
        or_comm (float_with real_type_is_float x) (float_with real_type_is_float y),
        by_domain_comm ns x y FloatType.complex_long_double FloatType.long_double,
        by_domain_comm ns x y FloatType.complex_double FloatType.double,
        by_domain_comm ns x y FloatType.complex_float FloatType.float,
        convert_integers_comm ns x y,
      )
      refl
