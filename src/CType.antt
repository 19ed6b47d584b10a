-- ===== src/CType.antt =====
-- dbcc-type.h: the types of the C program that is compiled.
-- A `DBCC_Type *` is the tree below it. `address` is the pointer itself, which the code compares.
-- A symbol is the address of its `DBCC_Symbol`, 0 for NULL. The reference counts and the cached
-- text of a type are left out, and so are the bit-field members of a struct or union member, which
-- no function sets. `DBCC_TypeFunctionKR` has no `DBCC_Type_Base`, so that its return type lies over
-- the base of the union; here both are fields, and no function makes such a type.
pub mod Query
pub mod Layout
mod Tests
pub mod Search
use dbcc.Base.{ℕ, Bool, List, ℤ}

abbrev pub Symbol : Type 0
Symbol = ℕ

-- `DBCC_FloatType`
pub data FloatType : Type 0 where
  float double long_double : FloatType
  complex_float complex_double complex_long_double : FloatType
  imaginary_float imaginary_double imaginary_long_double : FloatType

-- `DBCC_Type_Metatype`
pub data Metatype : Type 0 where
  void bool int float array variable_length_array struct union enum pointer typedef qualified
        function kr_function :
      Metatype

-- `DBCC_Type_Base`, less the metatype, which is the constructor of the type.
pub record TypeBase : Type 0 where
  pub address : ℕ
  pub name : Symbol
  pub sizeof_instance : ℕ
  pub alignof_instance : ℕ

pub record EnumValue : Type 0 where
  pub name : Symbol
  pub value : ℤ

-- The numbers of `n_elements` are those of `ssize_t`, -1 for an array without a length. The lists
-- of numbers behind members and enum values are the sorted indices.
mutual
  pub data CType : Type 0 where
    void_type bool_type : TypeBase → CType
    int_type : TypeBase → Bool → CType
    float_type : TypeBase → FloatType → Bool → CType
    array_type : TypeBase → ℤ → CType → CType
    variable_length_array_type : TypeBase → CType → CType
    struct_type : TypeBase → Symbol → Members → List ℕ → Bool → CType
    union_type : TypeBase → Symbol → Members → List ℕ → Bool → CType
    enum_type : TypeBase → Symbol → Bool → List EnumValue → List ℕ → List ℕ → CType
    pointer_type : TypeBase → CType → CType
    typedef_type : TypeBase → CType → CType
    qualified_type : TypeBase → CType → ℕ → CType
    function_type : TypeBase → CType → Params → Bool → CType
    kr_function_type : TypeBase → CType → List Symbol → CType

  -- `DBCC_TypeStructMember` or `DBCC_TypeUnionBranch`: a branch stands at offset 0.
  pub data Members : Type 0 where
    no_members : Members
    member : CType → Symbol → ℕ → Members → Members

  -- `DBCC_TypeFunctionParam`
  pub data Params : Type 0 where
    no_params : Params
    param : CType → Symbol → Params → Params

abbrev pub base : CType → TypeBase
base (void_type b) = b
base (bool_type b) = b
base (int_type b _) = b
base (float_type b _ _) = b
base (array_type b _ _) = b
base (variable_length_array_type b _) = b
base (struct_type b _ _ _ _) = b
base (union_type b _ _ _ _) = b
base (enum_type b _ _ _ _ _) = b
base (pointer_type b _) = b
base (typedef_type b _) = b
base (qualified_type b _ _) = b
base (function_type b _ _ _) = b
base (kr_function_type b _ _) = b

abbrev pub metatype : CType → Metatype
metatype (void_type _) = Metatype.void
metatype (bool_type _) = Metatype.bool
metatype (int_type _ _) = Metatype.int
metatype (float_type _ _ _) = Metatype.float
metatype (array_type _ _ _) = Metatype.array
metatype (variable_length_array_type _ _) = Metatype.variable_length_array
metatype (struct_type _ _ _ _ _) = Metatype.struct
metatype (union_type _ _ _ _ _) = Metatype.union
metatype (enum_type _ _ _ _ _ _) = Metatype.enum
metatype (pointer_type _ _) = Metatype.pointer
metatype (typedef_type _ _) = Metatype.typedef
metatype (qualified_type _ _ _) = Metatype.qualified
metatype (function_type _ _ _ _) = Metatype.function
metatype (kr_function_type _ _ _) = Metatype.kr_function

abbrev pub sizeof : CType → ℕ
sizeof t = (base t).sizeof_instance

abbrev pub alignof : CType → ℕ
alignof t = (base t).alignof_instance

abbrev pub address : CType → ℕ
address t = (base t).address
