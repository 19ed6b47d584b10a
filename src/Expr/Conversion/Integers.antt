-- ===== src/Expr/Conversion/Integers.antt =====
-- The usual arithmetic conversions (dbcc-expr.c) of two integer types.
use dbcc.Base.{
  ℕ, ◌%◌, ◌^◌, ◌≡◌, refl, arith, Bool, true, false, ltb, if◌then◌else◌, max, Run, ok, Returns,
  Bool-cases, inl, inr,
}
use dbcc.CType.Query.{is_arithmetic, dequalify}
use dbcc.CType.{CType, sizeof}
use dbcc.Expr.Conversion.{
  real_type_is_long_double, real_type_is_double, real_type_is_float, get_int_or_enum_is_signed,
  float_with, convert_integers, convert_dequalified, usual_arithment_conversion_get_type,
}
use dbcc.Namespace.Builtins.{HasBuiltins, IsIntegerType, get_integer_type_lem}
use dbcc.Namespace.{Namespace, get_integer_type}
use dbcc.Value.Cast.Conversion.{IsInt}
use dbcc.Value.Cast.{integer, shape}
use dbcc.Value.{is_size}

-- The signedness of the common type: the unsigned operand wins unless the signed one is larger.
abbrev pub common_signed : Bool → ℕ → Bool → ℕ → Bool
common_signed true w true v = true
common_signed true w false v = ltb v w
common_signed false w true v = ltb w v
common_signed false w false v = false

-- An integer type, not an enum, as the tests of the function see it.
record Seen (t : CType) (s : Bool) : Type 0 where
  arithmetic : is_arithmetic t ≡ true
  signed : get_int_or_enum_is_signed t ≡ ok s
  no_long_double : float_with real_type_is_long_double t ≡ false
  no_double : float_with real_type_is_double t ≡ false
  no_float : float_with real_type_is_float t ≡ false

shape-Seen : (t : CType) (s : Bool) → shape t ≡ integer s → Seen t s
unfolding shape is_arithmetic get_int_or_enum_is_signed float_with
shape-Seen t s h = record {
  arithmetic = ground arith;
  signed = ground arith;
  no_long_double = ground arith;
  no_double = ground arith;
  no_float = ground arith;
}

common_size :
    (ns : Namespace) (s : Bool) (w v : ℕ)
    → HasBuiltins ns
    → is_size w ≡ true
    → is_size v ≡ true
    → Returns (get_integer_type ns s (max w v)) (IsIntegerType s (max w v))
common_size ns s w v hb hw hv = get_integer_type_lem ns s (max w v) hb (ground arith)

size-small : (w : ℕ) → is_size w ≡ true → w % 2 ^ 32 ≡ w
size-small w h = ground arith

-- The choice between the two types and a built-in one.
choose : Namespace → CType → CType → ℕ → ℕ → Bool → Bool → Run CType
choose ns a b w v s r =
    if s
    then (if r
        then get_integer_type ns true (max w v)
        else if ltb v w
        then ok a
        else get_integer_type ns false (max w v))
    else (if r
        then (if ltb w v then ok b else get_integer_type ns false (max w v))
        else get_integer_type ns false (max w v))

choose-IsIntegerType :
    (ns : Namespace) (a b : CType) (w v : ℕ) (s r : Bool)
    → HasBuiltins ns
    → is_size w ≡ true
    → is_size v ≡ true
    → IsIntegerType s w a
    → IsIntegerType r v b
    → Returns (choose ns a b w v s r) (IsIntegerType (common_signed s w r v) (max w v))
unfolding choose
choose-IsIntegerType ns a b w v true true hb hw hv ta tb = common_size ns true w v hb hw hv
choose-IsIntegerType ns a b w v false false hb hw hv ta tb = common_size ns false w v hb hw hv
choose-IsIntegerType ns a b w v true false hb hw hv ta tb = elim (Bool-cases (ltb v w)) [
  | inl e ↦ let m : max w v ≡ w = ground arith in rw (e, m) (a, refl, ta)
  | inr e ↦ rw e (common_size ns false w v hb hw hv)
]
choose-IsIntegerType ns a b w v false true hb hw hv ta tb = elim (Bool-cases (ltb w v)) [
  | inl e ↦ let m : max w v ≡ v = ground arith in rw (e, m) (b, refl, tb)
  | inr e ↦ rw e (common_size ns false w v hb hw hv)
]

-- For two unqualified integer types, with the built-in types in place, the usual arithmetic
-- conversions return an integer type of the greater of the two sizes; it is signed if both are
-- signed, or if the signed one of the two is wider than the unsigned one, and else unsigned.
pub usual_arithment_conversion_get_type-IsInt :
    (ns : Namespace) (a b : CType) (w v : ℕ) (s r : Bool)
    → HasBuiltins ns
    → dequalify a ≡ a
    → dequalify b ≡ b
    → IsInt a w s
    → IsInt b v r
    → Returns
        (usual_arithment_conversion_get_type ns a b)
        (IsIntegerType (common_signed s w r v) (max w v))
unfolding usual_arithment_conversion_get_type convert_dequalified convert_integers choose
usual_arithment_conversion_get_type-IsInt ns a b w v s r hb pa pb (ia, ea, ha) (ib, eb, hb') =
    let ia' : shape a ≡ integer s = rw pa at ia in
    let ib' : shape b ≡ integer r = rw pb at ib in
    let ea' : sizeof a ≡ w = rw pa at ea in
    let eb' : sizeof b ≡ v = rw pb at eb in
    let sa = shape-Seen a s ia' in
    let sb = shape-Seen b r ib' in
    rw
      (
        pa,
        pb,
        sa.arithmetic,
        sb.arithmetic,
        sa.no_long_double,
        sb.no_long_double,
        sa.no_double,
        sb.no_double,
        sa.no_float,
        sb.no_float,
        sa.signed,
        sb.signed,
        ea',
        eb',
        size-small w ha,
        size-small v hb',
      )
      (choose-IsIntegerType ns a b w v s r hb ha hb' (ia', ea', pa) (ib', eb', pb))
