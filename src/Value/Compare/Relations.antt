-- ===== src/Value/Compare/Relations.antt =====
-- `dbcc_typed_value_compare` (dbcc-type.c) on integers.
use dbcc.Base.{
  ℕ, ◌+◌, ◌<◌, ◌≡◌, ◌≢◌, ◌↔◌, refl, arith, Bool, true, false, not, ◌||◌, some, ℤ, pos, negsuc,
  pos_part, neg_part, ltb_ℤ, ◌≤ℤ◌, Run, ok, Returns, if◌then◌else◌, Bool-cases, inl, inr,
}
use dbcc.CType.{CType, sizeof}
use dbcc.CType.Query.{dequalify, is_unsigned}
use dbcc.Operator.{BinaryOperator, lt, lteq, gt, gteq, eq, ne}
use dbcc.Value.Access.{typed_value_set_int64}
use dbcc.Value.Bytes.{IsValue}
use dbcc.Value.Compare.{typed_value_compare, compare_bool, all_ops, eqb_ℤ, is_whole}
use dbcc.Value.Floats.{FloatOps}
use dbcc.Value.Integer.Products.{read, load_int-read}
use dbcc.Value.Access.RoundTrip.{int_or_enum-float_of}
use dbcc.Value.Words.{Integral}
use dbcc.Value.{store, Value, word, is_size}

infix 50 ◌<ℤ◌
abbrev pub ◌<ℤ◌ : ℤ → ℤ → Type 0
x <ℤ y = pos_part x + neg_part y < pos_part y + neg_part x

-- The operators that compare, and the relations they stand for.
pub data Relation : Type 0 where
  less less_or_equal greater greater_or_equal equal different : Relation

abbrev pub operator : Relation → BinaryOperator
operator less = lt
operator less_or_equal = lteq
operator greater = gt
operator greater_or_equal = gteq
operator equal = eq
operator different = ne

abbrev pub Holds : Relation → ℤ → ℤ → Type 0
Holds less x y = x <ℤ y
Holds less_or_equal x y = x ≤ℤ y
Holds greater x y = y <ℤ x
Holds greater_or_equal x y = y ≤ℤ x
Holds equal x y = x ≡ y
Holds different x y = x ≢ y

false-ne-true : (false ≡ true) → ⊥
false-ne-true h = ground arith

eqb_ℤ-sound : (x y : ℤ) → eqb_ℤ x y ≡ true → x ≡ y
eqb_ℤ-sound (pos m) (pos n) e = ground arith
eqb_ℤ-sound (pos m) (negsuc n) e = ground arith
eqb_ℤ-sound (negsuc m) (pos n) e = ground arith
eqb_ℤ-sound (negsuc m) (negsuc n) e = ground arith

eqb_ℤ-refl : (x : ℤ) → eqb_ℤ x x ≡ true
eqb_ℤ-refl x = ground arith

eqb_ℤ-complete : (x y : ℤ) → x ≡ y → eqb_ℤ x y ≡ true
eqb_ℤ-complete x y e = rw e (eqb_ℤ-refl y)

-- A Boolean that decides a proposition.
abbrev Decides : Type 0 → Run Bool → Type 0
Decides P run = Returns run (λ r. (r ≡ true) ↔ P)

leb_ℤ-sound : (x y : ℤ) → (ltb_ℤ x y || eqb_ℤ x y) ≡ true → x ≤ℤ y
leb_ℤ-sound x y e = ground arith

leb_ℤ-complete : (x y : ℤ) → x ≤ℤ y → (ltb_ℤ x y || eqb_ℤ x y) ≡ true
leb_ℤ-complete x y e = ground arith

geb_ℤ-sound : (x y : ℤ) → (ltb_ℤ y x || eqb_ℤ x y) ≡ true → y ≤ℤ x
geb_ℤ-sound x y e = ground arith

geb_ℤ-complete : (x y : ℤ) → y ≤ℤ x → (ltb_ℤ y x || eqb_ℤ x y) ≡ true
geb_ℤ-complete x y e = ground arith

ne_sound : (x y : ℤ) → not (eqb_ℤ x y) ≡ true → x ≢ y
ne_sound x y h e = absurd (false-ne-true (rw (eqb_ℤ-complete x y e) at h))

ne_complete : (x y : ℤ) → x ≢ y → not (eqb_ℤ x y) ≡ true
ne_complete x y h = elim (Bool-cases (eqb_ℤ x y)) [
  | inl e ↦ absurd (h (eqb_ℤ-sound x y e))
  | inr e ↦ rw e refl
]

all_ops-Decides :
    (r : Relation) (x y : ℤ) → Decides (Holds r x y) (all_ops (operator r) ltb_ℤ eqb_ℤ x y)
unfolding all_ops
all_ops-Decides less x y = (ltb_ℤ x y, refl, ((λ e. ground arith), (λ l. ground arith)))
all_ops-Decides less_or_equal x y = (_, refl, (leb_ℤ-sound x y, leb_ℤ-complete x y))
all_ops-Decides greater x y = (ltb_ℤ y x, refl, ((λ e. ground arith), (λ l. ground arith)))
all_ops-Decides greater_or_equal x y = (_, refl, (geb_ℤ-sound x y, geb_ℤ-complete x y))
all_ops-Decides equal x y = (eqb_ℤ x y, refl, (eqb_ℤ-sound x y, eqb_ℤ-complete x y))
all_ops-Decides different x y = (_, refl, (ne_sound x y, ne_complete x y))

-- A type that is compared as an integer, of `w` bytes.
abbrev pub Whole : CType → ℕ → Type 0
Whole type w =
    (is_whole (dequalify type) ≡ true) × (sizeof (dequalify type) ≡ w) × (is_size w ≡ true)

-- For an integer, enumeration or `bool` type of 1, 2, 4 or 8 bytes and a namespace's `int` of such
-- a size, `dbcc_typed_value_compare` writes 1 as that `int` if the relation holds between the
-- numbers that the bytes stand for in the type's signedness, and 0 if not.
pub typed_value_compare_lem :
    (ops : FloatOps) (ns_int type : CType) (w iw : ℕ) (r : Relation) (a b : Value)
    → Integral ns_int iw
    → Whole type w
    → IsValue w a
    → IsValue w b
    → let s = not (is_unsigned (dequalify type)) in
      (c : Bool) × ((c ≡ true) ↔ Holds r (read w s (word a)) (read w s (word b)))
      × (typed_value_compare ops ns_int type (operator r) a b
          ≡ ok (some (store iw (if c then pos 1 else pos 0))))
unfolding typed_value_compare compare_bool typed_value_set_int64
typed_value_compare_lem ops ns_int type w iw r a b (ni, nw, nh) (i, e, h) ha hb =
    let s = not (is_unsigned (dequalify type)) in
    let (c, run, decides) = all_ops-Decides r (read w s (word a)) (read w s (word b)) in
    (
      c,
      decides,
      rw
          (
            i,
            e,
            h,
            load_int-read w s a ha,
            load_int-read w s b hb,
            run,
            typed_value_set_int64,
            int_or_enum-float_of (dequalify ns_int) ni,
            nw,
            nh,
          )
          refl,
    )
