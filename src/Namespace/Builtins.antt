-- ===== src/Namespace/Builtins.antt =====
-- The functions `dbcc_namespace_get_*` (dbcc-namespace.c) and the built-in types.
use dbcc.Base.{ℕ, ◌≡◌, refl, ap, some, get_elem?, Bool, true, false, ok, Returns}
use dbcc.CType.{CType, FloatType, sizeof}
use dbcc.CType.Query.{dequalify}
use dbcc.Namespace.{
  Namespace, init_ns_builtins, get_integer_type, get_floating_point_type, size_index, builtin,
}
use dbcc.Value.Cast.{integer, shape}
use dbcc.Value.Floats.{float_of}
use dbcc.Value.Words.{by_sizes}
use dbcc.Value.{is_size}

-- The namespace has the built-in types that `dbcc_namespace_new_global` makes.
abbrev pub HasBuiltins : Namespace → Type 0
HasBuiltins ns =
    (name : ℕ → ℕ) × (at : ℕ → ℕ) × (ns.builtins ≡ init_ns_builtins name at ns.target_env)

-- What is promised of the type for integers of `w` bytes.
abbrev pub IsIntegerType : Bool → ℕ → CType → Type 0
IsIntegerType s w t = (shape t ≡ integer s) × (sizeof t ≡ w) × (dequalify t ≡ t)

found :
    (ns : Namespace) (i : ℕ) (t : CType) → get_elem? ns.builtins i ≡ some t → builtin ns i ≡ ok t
found ns i t e = rw (builtin, e) refl

-- With the built-in types in place, `dbcc_namespace_get_integer_type` gives an integer type of the
-- size and signedness asked for, for the sizes 1, 2, 4 and 8.
pub get_integer_type_lem :
    (ns : Namespace) (s : Bool) (w : ℕ)
    → HasBuiltins ns
    → is_size w ≡ true
    → Returns (get_integer_type ns s w) (IsIntegerType s w)
unfolding get_integer_type init_ns_builtins size_index shape dequalify
get_integer_type_lem ns true w (name, at, e) h =
    by_sizes (λ w. Returns (get_integer_type ns true w) (IsIntegerType true w))
      (_, found ns 0 _ (ap (λ l. get_elem? l 0) e), (refl, refl, refl))
      (_, found ns 1 _ (ap (λ l. get_elem? l 1) e), (refl, refl, refl))
      (_, found ns 2 _ (ap (λ l. get_elem? l 2) e), (refl, refl, refl))
      (_, found ns 3 _ (ap (λ l. get_elem? l 3) e), (refl, refl, refl)) w h
get_integer_type_lem ns false w (name, at, e) h =
    by_sizes (λ w. Returns (get_integer_type ns false w) (IsIntegerType false w))
      (_, found ns 4 _ (ap (λ l. get_elem? l 4) e), (refl, refl, refl))
      (_, found ns 5 _ (ap (λ l. get_elem? l 5) e), (refl, refl, refl))
      (_, found ns 6 _ (ap (λ l. get_elem? l 6) e), (refl, refl, refl))
      (_, found ns 7 _ (ap (λ l. get_elem? l 7) e), (refl, refl, refl)) w h

-- With the built-in types in place, `dbcc_namespace_get_floating_point_type` gives an unqualified
-- type of the floating type asked for.
pub get_floating_point_type_lem :
    (ns : Namespace) (f : FloatType)
    → HasBuiltins ns
    → Returns (get_floating_point_type ns f) (λ t. (float_of t ≡ some f) × (dequalify t ≡ t))
unfolding get_floating_point_type init_ns_builtins dequalify
get_floating_point_type_lem ns FloatType.float (name, at, e) =
    (_, found ns 9 _ (ap (λ l. get_elem? l 9) e), (refl, refl))
get_floating_point_type_lem ns FloatType.double (name, at, e) =
    (_, found ns 10 _ (ap (λ l. get_elem? l 10) e), (refl, refl))
get_floating_point_type_lem ns FloatType.long_double (name, at, e) =
    (_, found ns 11 _ (ap (λ l. get_elem? l 11) e), (refl, refl))
get_floating_point_type_lem ns FloatType.complex_float (name, at, e) =
    (_, found ns 12 _ (ap (λ l. get_elem? l 12) e), (refl, refl))
get_floating_point_type_lem ns FloatType.complex_double (name, at, e) =
    (_, found ns 13 _ (ap (λ l. get_elem? l 13) e), (refl, refl))
get_floating_point_type_lem ns FloatType.complex_long_double (name, at, e) =
    (_, found ns 14 _ (ap (λ l. get_elem? l 14) e), (refl, refl))
get_floating_point_type_lem ns FloatType.imaginary_float (name, at, e) =
    (_, found ns 15 _ (ap (λ l. get_elem? l 15) e), (refl, refl))
get_floating_point_type_lem ns FloatType.imaginary_double (name, at, e) =
    (_, found ns 16 _ (ap (λ l. get_elem? l 16) e), (refl, refl))
get_floating_point_type_lem ns FloatType.imaginary_long_double (name, at, e) =
    (_, found ns 17 _ (ap (λ l. get_elem? l 17) e), (refl, refl))
