-- ===== src/Expr/Binary/Folding.antt =====
-- The handlers of `+` and `/` (dbcc-expr.c) on two integer constants.
use dbcc.Base.{
  ℕ, ◌+◌, ◌*◌, ◌%◌, ◌^◌, ◌≡◌, ◌∙◌, refl, arith, Bool, true, false, not, some, max, ◌*ℤ◌, ok,
  Returns,
}
use dbcc.CType.Query.{dequalify, dequalify_idem, is_arithmetic, is_unsigned}
use dbcc.CType.{CType}
use dbcc.Constant.{value}
use dbcc.Expr.Arithmetic.{handle_add, handle_divide}
use dbcc.Expr.Conversion.Integers.{common_signed, usual_arithment_conversion_get_type-IsInt}
use dbcc.Expr.{Operand}
use dbcc.Namespace.Builtins.{HasBuiltins, IsIntegerType}
use dbcc.Namespace.{Namespace}
use dbcc.Value.Bytes.{IsValue, store-IsValue, word-store}
use dbcc.Value.Cast.Conversion.{IsInt, cast_value_lem}
use dbcc.Value.Cast.{integer, shape}
use dbcc.Value.Floats.{FloatOps}
use dbcc.Value.Integer.Products.{read, overflow, typed_value_multiply_lem}
use dbcc.Value.Integer.Sums.{typed_value_add_lem}
use dbcc.Value.Integer.{typed_value_multiply}
use dbcc.Value.Words.{Integral}
use dbcc.Value.{Value, word, bytes, store, convert, is_size, int_or_enum}

shape-int_or_enum : (t : CType) (s : Bool) → shape t ≡ integer s → int_or_enum t ≡ true
unfolding shape
shape-int_or_enum t s h = ground arith

shape-is_arithmetic : (t : CType) (s : Bool) → shape t ≡ integer s → is_arithmetic t ≡ true
unfolding shape is_arithmetic
shape-is_arithmetic t s h = ground arith

shape-is_unsigned : (t : CType) (s : Bool) → shape t ≡ integer s → not (is_unsigned t) ≡ s
unfolding shape is_unsigned
shape-is_unsigned t s h = ground arith

-- An operand with an integer constant.
abbrev pub integer_constant : CType → Value → Operand
integer_constant t v = record { value_type = t; constant = some (value v) }

-- The common type of two integer types, as the conversions give it, and its properties.
common :
    (ns : Namespace) (a b : CType) (w v : ℕ) (s r : Bool)
    → HasBuiltins ns
    → IsInt a w s
    → IsInt b v r
    → Returns
        (dbcc.Expr.Conversion.usual_arithment_conversion_get_type ns (dequalify a) (dequalify b))
        (IsIntegerType (common_signed s w r v) (max w v))
common ns a b w v s r hb (ia, ea, ha) (ib, eb, hb') =
    let da = dequalify_idem a in
    let db = dequalify_idem b in
    usual_arithment_conversion_get_type-IsInt ns (dequalify a) (dequalify b) w v s r hb da db
      (rw da ia, rw da ea, ha) (rw db ib, rw db eb, hb')

max-is_size : (w v : ℕ) → is_size w ≡ true → is_size v ≡ true → is_size (max w v) ≡ true
max-is_size w v hw hv = ground arith

-- For two integer constants, with the built-in types in place, the handler of `+` succeeds; the
-- result has the type of the usual arithmetic conversions, and its constant is the sum of the
-- converted operands modulo the type's range.
pub handle_add_lem :
    (ops : FloatOps) (ns : Namespace) (a b : CType) (w v : ℕ) (s r : Bool) (c d : Value)
    → HasBuiltins ns
    → IsInt a w s
    → IsInt b v r
    → IsValue w c
    → IsValue v d
    → Returns (handle_add ops ns (integer_constant a c) (integer_constant b d)) (λ e.
      IsInt e.value_type (max w v) (common_signed s w r v)
      × (e.constant
          ≡ some (
              value (
                bytes (max w v) (
                  (convert (max w v) (read w s (word c)) + convert (max w v) (read v r (word d)))
                  % 256 ^ max w v)))))
unfolding handle_add
handle_add_lem ops ns a b w v s r c d hb ta tb hc hd =
    let (t, run, (sh, sz, plain)) = common ns a b w v s r hb ta tb in
    let m = max w v in
    let hm = max-is_size w v ta.2 tb.2 in
    let x = read w s (word c) in
    let y = read v r (word d) in
    let tt' : IsInt t m (common_signed s w r v) = rw plain (sh, sz, hm) in
    let da = dequalify_idem a in
    let db = dequalify_idem b in
    let ca = cast_value_lem ops t (dequalify a) m w (common_signed s w r v) s c tt' (rw da ta) hc in
    let cb = cast_value_lem ops t (dequalify b) m v (common_signed s w r v) r d tt' (rw db tb) hd in
    let it : Integral t m = rw plain (shape-int_or_enum t (common_signed s w r v) sh, sz, hm) in
    rw
      (
        run,
        shape-is_arithmetic (dequalify a) s ta.0,
        shape-is_arithmetic (dequalify b) r tb.0,
        ca,
        cb,
        typed_value_add_lem ops t m (store m x) (store m y) it (store-IsValue m x)
            (store-IsValue m y),
        word-store m x,
        word-store m y,
      )
      (_, refl, (tt', refl))

-- The product of the two numbers, converted to the common type, overflows that type.
abbrev product_overflows : Bool → ℕ → Value → Bool → ℕ → Value → Bool
product_overflows s w c r v d =
    let m = max w v in
    let t = common_signed s w r v in
    overflow m t
      (read m t (convert m (read w s (word c))) *ℤ read m t (convert m (read v r (word d))))

-- For two integer constants whose product does not overflow, with the built-in types in place, the
-- constant that the handler of `/` writes is the product of the converted operands.
pub handle_divide_product :
    (ops : FloatOps) (ns : Namespace) (a b : CType) (w v : ℕ) (s r : Bool) (c d : Value)
    → HasBuiltins ns
    → IsInt a w s
    → IsInt b v r
    → IsValue w c
    → IsValue v d
    → product_overflows s w c r v d ≡ false
    → Returns (handle_divide ops ns (integer_constant a c) (integer_constant b d)) (λ e.
      IsInt e.value_type (max w v) (common_signed s w r v)
      × (e.constant
          ≡ some (
              value (
                bytes (max w v) (
                  convert (max w v) (read w s (word c))
                  * convert (max w v) (read v r (word d))
                  % 256 ^ max w v)))))
unfolding handle_divide
handle_divide_product ops ns a b w v s r c d hb ta tb hc hd small =
    let (t, run, (sh, sz, plain)) = common ns a b w v s r hb ta tb in
    let m = max w v in
    let hm = max-is_size w v ta.2 tb.2 in
    let x = read w s (word c) in
    let y = read v r (word d) in
    let cs = common_signed s w r v in
    let tt' : IsInt t m cs = rw plain (sh, sz, hm) in
    let da = dequalify_idem a in
    let db = dequalify_idem b in
    let ca = cast_value_lem ops t (dequalify a) m w cs s c tt' (rw da ta) hc in
    let cb = cast_value_lem ops t (dequalify b) m v cs r d tt' (rw db tb) hd in
    let it : Integral t m = rw plain (shape-int_or_enum t cs sh, sz, hm) in
    let signed : not (is_unsigned (dequalify t)) ≡ cs = rw plain (shape-is_unsigned t cs sh) in
    let product =
      typed_value_multiply_lem ops t m (store m x) (store m y) it (store-IsValue m x)
        (store-IsValue m y) in
    let product' : typed_value_multiply ops t (store m x) (store m y)
        ≡ ok (bytes m (convert m x * convert m y % 256 ^ m)) =
      product ∙ rw (signed, word-store m x, word-store m y, small) refl in
    rw
      (
        run,
        shape-is_arithmetic (dequalify a) s ta.0,
        shape-is_arithmetic (dequalify b) r tb.0,
        ca,
        cb,
        product',
      )
      (_, refl, (tt', refl))
