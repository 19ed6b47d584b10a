-- ===== src/Namespace.antt =====
-- dbcc-namespace.c and dbcc-namespace.h: the built-in types and the tables of tags and symbols.
-- The reference count and the `chain` to a parent, which nothing reads, are left out.
pub mod Builtins
use dbcc.Base.{
  ℕ, ◌+◌, ◌*◌, Bool, true, false, Option, none, some, List, [], ◌∷◌, ◌==◌, if◌then◌else◌, get_elem?,
  Run, ok, fault, ◌>>=◌, out_of_bounds, assertion,
}
use dbcc.CType.{
  Symbol, CType, FloatType, TypeBase, EnumValue, int_type, bool_type, float_type, struct_type,
  union_type, enum_type,
}
use dbcc.PtrTable.{PtrTable, init, lookup_value, set_value}
use dbcc.Target.{TargetEnvironment}

-- `DBCC_NamespaceEntry`. A global or local is its address.
pub data NamespaceEntry : Type 0 where
  typedef : CType → NamespaceEntry
  enum_value : CType → EnumValue → NamespaceEntry
  global local : ℕ → NamespaceEntry

pub record Namespace : Type 0 where
  pub is_global : Bool
  pub symbols : PtrTable NamespaceEntry
  pub struct_tag_symbols : PtrTable CType
  pub enum_tag_symbols : PtrTable CType
  pub union_tag_symbols : PtrTable CType
  pub target_env : TargetEnvironment
  pub builtins : List CType

abbrev pub int_types_offset : ℕ
int_types_offset = 0

abbrev pub uint_types_offset : ℕ
uint_types_offset = 4

abbrev pub float_types_offset : ℕ
float_types_offset = 9

-- The value of the enumerator.
abbrev pub float_type_number : FloatType → ℕ
float_type_number FloatType.float = 0
float_type_number FloatType.double = 1
float_type_number FloatType.long_double = 2
float_type_number FloatType.complex_float = 3
float_type_number FloatType.complex_double = 4
float_type_number FloatType.complex_long_double = 5
float_type_number FloatType.imaginary_float = 6
float_type_number FloatType.imaginary_double = 7
float_type_number FloatType.imaginary_long_double = 8

-- The array of built-in types. `name i` is the symbol of the type at index `i`, from the symbol
-- space, and `at i` the address of the element.
module _ (name at : ℕ → ℕ) (env : TargetEnvironment) where
  abbrev builtin_base : ℕ → ℕ → ℕ → TypeBase
  builtin_base i size align = record {
    address = at i;
    name = name i;
    sizeof_instance = size;
    alignof_instance = align;
  }

  abbrev builtin_int : ℕ → ℕ → ℕ → Bool → CType
  builtin_int i size align is_signed = int_type (builtin_base i size align) is_signed

  abbrev builtin_float : FloatType → ℕ → ℕ → Bool → CType
  builtin_float f size align is_complex =
      float_type (builtin_base (float_types_offset + float_type_number f) size align) f is_complex

  -- The last one, `void`, has the metatype of a float.
  unfoldable pub init_ns_builtins : List CType
  init_ns_builtins =
      builtin_int 0 1 1 true
      ∷ builtin_int 1 2 env.alignof_int16 true
      ∷ builtin_int 2 4 env.alignof_int32 true
      ∷ builtin_int 3 8 env.alignof_int64 true
      ∷ builtin_int 4 1 1 false
      ∷ builtin_int 5 2 env.alignof_int16 false
      ∷ builtin_int 6 4 env.alignof_int32 false
      ∷ builtin_int 7 8 env.alignof_int64 false
      ∷ bool_type (builtin_base 8 env.sizeof_bool env.alignof_bool)
      ∷ builtin_float FloatType.float 4 env.alignof_float false
      ∷ builtin_float FloatType.double 8 env.alignof_double false
      ∷ builtin_float FloatType.long_double env.sizeof_long_double env.alignof_long_double false
      ∷ builtin_float FloatType.complex_float (4 * 2) env.alignof_float true
      ∷ builtin_float FloatType.complex_double (8 * 2) env.alignof_double true
      ∷ builtin_float FloatType.complex_long_double (env.sizeof_long_double * 2)
          env.alignof_long_double true
      ∷ builtin_float FloatType.imaginary_float 4 env.alignof_float true
      ∷ builtin_float FloatType.imaginary_double 8 env.alignof_double true
      ∷ builtin_float FloatType.imaginary_long_double env.sizeof_long_double env.alignof_long_double
          true
      ∷ float_type (builtin_base 18 0 1) FloatType.float false
      ∷ []

  unfoldable pub namespace_new_global : Namespace
  unfolding init_ns_builtins
  namespace_new_global = record {
    is_global = true;
    symbols = init;
    struct_tag_symbols = init;
    enum_tag_symbols = init;
    union_tag_symbols = init;
    target_env = env;
    builtins = init_ns_builtins;
  }

unfoldable pub namespace_lookup : Namespace → Symbol → Option NamespaceEntry
namespace_lookup ns symbol = lookup_value ns.symbols symbol

unfoldable pub namespace_lookup_struct_tag : Namespace → Symbol → Option CType
namespace_lookup_struct_tag ns symbol = lookup_value ns.struct_tag_symbols symbol

unfoldable pub namespace_lookup_union_tag : Namespace → Symbol → Option CType
namespace_lookup_union_tag ns symbol = lookup_value ns.union_tag_symbols symbol

unfoldable pub namespace_lookup_enum_tag : Namespace → Symbol → Option CType
namespace_lookup_enum_tag ns symbol = lookup_value ns.enum_tag_symbols symbol

unfoldable pub namespace_add_by_tag : Namespace → CType → Run Namespace
namespace_add_by_tag ns (enum_type b tag s vs x y) = do
  t ← set_value ns.enum_tag_symbols tag (some (enum_type b tag s vs x y))
  ok (record ns { enum_tag_symbols = t })
namespace_add_by_tag ns (union_type b tag ms x incomplete) = do
  t ← set_value ns.union_tag_symbols tag (some (union_type b tag ms x incomplete))
  ok (record ns { union_tag_symbols = t })
namespace_add_by_tag ns (struct_type b tag ms x incomplete) = do
  t ← set_value ns.struct_tag_symbols tag (some (struct_type b tag ms x incomplete))
  ok (record ns { struct_tag_symbols = t })
namespace_add_by_tag ns _ = fault assertion

abbrev pub builtin : Namespace → ℕ → Run CType
builtin ns i = elim (get_elem? ns.builtins i) [ none ↦ fault out_of_bounds | some t ↦ ok t ]

-- The `switch` on the size.
unfoldable pub size_index : ℕ → Run ℕ
size_index size =
    if size == 1
    then ok 0
    else if size == 2
    then ok 1
    else if size == 4
    then ok 2
    else if size == 8
    then ok 3
    else fault assertion

unfoldable pub get_integer_type : Namespace → Bool → ℕ → Run CType
unfolding size_index
get_integer_type ns is_signed size = do
  i ← size_index size
  builtin ns ((if is_signed then int_types_offset else uint_types_offset) + i)

unfoldable pub get_floating_point_type : Namespace → FloatType → Run CType
get_floating_point_type ns f = builtin ns (float_types_offset + float_type_number f)

unfoldable pub get_char_type : Namespace → Run CType
unfolding get_integer_type
get_char_type ns = get_integer_type ns ns.target_env.is_char_signed 1

unfoldable pub get_signed_char_type : Namespace → Run CType
unfolding get_integer_type
get_signed_char_type ns = get_integer_type ns true 1

unfoldable pub get_short_type : Namespace → Run CType
unfolding get_integer_type
get_short_type ns = get_integer_type ns true 2

unfoldable pub get_unsigned_short_type : Namespace → Run CType
unfolding get_integer_type
get_unsigned_short_type ns = get_integer_type ns false 2

unfoldable pub get_int_type : Namespace → Run CType
unfolding get_integer_type
get_int_type ns = get_integer_type ns true ns.target_env.sizeof_int

unfoldable pub get_unsigned_int_type : Namespace → Run CType
unfolding get_integer_type
get_unsigned_int_type ns = get_integer_type ns false ns.target_env.sizeof_int

unfoldable pub get_long_type : Namespace → Run CType
unfolding get_integer_type
get_long_type ns = get_integer_type ns true ns.target_env.sizeof_long_int

unfoldable pub get_unsigned_long_type : Namespace → Run CType
unfolding get_integer_type
get_unsigned_long_type ns = get_integer_type ns false ns.target_env.sizeof_long_int

unfoldable pub get_long_long_type : Namespace → Run CType
unfolding get_integer_type
get_long_long_type ns = get_integer_type ns true ns.target_env.sizeof_long_long_int

unfoldable pub get_unsigned_long_long_type : Namespace → Run CType
unfolding get_integer_type
get_unsigned_long_long_type ns = get_integer_type ns false ns.target_env.sizeof_long_long_int

unfoldable pub get_size_type : Namespace → Run CType
unfolding get_integer_type
get_size_type ns = get_integer_type ns false ns.target_env.sizeof_pointer

unfoldable pub get_ssize_type : Namespace → Run CType
unfolding get_integer_type
get_ssize_type ns = get_integer_type ns true ns.target_env.sizeof_pointer

unfoldable pub get_ptrdiff_type : Namespace → Run CType
unfolding get_integer_type
get_ptrdiff_type ns = get_integer_type ns true ns.target_env.sizeof_pointer
