-- ===== src/Lib.antt =====
-- A model of dbcc, a compiler for C in C. The parser reads a program into types, expressions and
-- statements; here are the parts that it calls to build types, to give expressions their types and
-- to fold constants.
--
-- Pointers are numbers, NULL is 0 or `none`. A function that may report an error, fail an assertion
-- or do what C leaves undefined returns a `Run` (Base/Outcome): `ok`, `err` with the code of the
-- DBCC_Error, or `fault`. Allocations succeed. A function that changes what a pointer refers to
-- returns the new state. Reference counts and texts of messages are left out.
--
-- Base: Booleans, lists and signed integers over the native numbers. Bits: masks in the arithmetic
-- of `size_t`, of 64 bits. Error, Operator, Target: the enumerations of dbcc-error.h and dbcc.h and
-- the record of dbcc-target-environment.h. Sample: concrete data for the tests.
--
-- PtrTable: dbcc-ptr-table.c, a chained hash table that namespaces use for symbols and tags.
-- `dbcc_ptr_table_force` is `force`, which is `prepare` (the first allocation, or a rehash by
-- `resize`) and then `enter`; `dbcc_ptr_table_set` is `set_value`, and each other
-- `dbcc_ptr_table_x` is `x`. A lookup of an index beyond ptr_table_sizes is a fault.
-- PtrTable/Chain, Buckets and Entries have the lemmas on chains, Steps the well-formedness, Laws
-- and Growth the theorems.
--
-- CType: the types of dbcc-type.h as a tree. CType/Query: the predicates `dbcc_type_is_x`.
-- CType/Layout: the offsets, sizes and alignments of structs and unions. CType/Search: the binary
-- searches for members, branches and enumerators; the length of the index is their fuel, since each
-- step shortens the range. Construct: the constructors `dbcc_type_new_x`; the address of a new type
-- is an argument, and so is the sort of dsk/dsk-qsort-macro.h, which gets the comparison of the
-- code.
--
-- Value: values of the compiled program as lists of bytes, lowest first, on a host with 32-bit
-- `int`; an overflow in the host's `int` or `int64_t` is a fault, and sums of narrower types wrap
-- as the conversion back does. Value/Integer, Bitwise, Access, Cast and Compare have the functions
-- `dbcc_typed_value_x` and `dbcc_cast_value`. Value/Floats: the floating-point instructions of the
-- host are a parameter, `FloatOps`, whose operations nothing is assumed of.
--
-- Constant: DBCC_Constant and dbcc-constant.c. Namespace: the built-in types, the lookups and the
-- tables of tags of dbcc-namespace.c. The symbols of the built-in types come from a parameter: a
-- type has the address of a symbol only.
--
-- Expr: dbcc-expr.c. An expression is its value type and its constant (`Operand`). Expr/Conversion:
-- the usual arithmetic conversions. Expr/Operands, Arithmetic, Comparison and Logical: the handlers
-- `handle_x` of the binary operators. Expr/Binary: the choice of the handler, and
-- `dbcc_expr_new_binary_operator`. Expr/Cast, Access, Constants, Assignment, Unary, Call, Ternary
-- and Identifier: casts, `.` and `->`, the constants with `sizeof` and `_Alignof`, the checks of
-- assignments, and the unary operators with the test for lvalues, identifiers and subscripts, the
-- conditional operator with the composite types of dbcc-type.c, and calls, whose test
-- `dbcc_type_implicitly_convertable` has no definition and is a parameter, for operands whose types
-- are known. Memory from `alloca` that is given to `free` is a fault, and so is the use of NULL.
--
-- SymbolSpace: dbcc-symbol.c, the strings that are stored once. A pointer to a string is the memory
-- from it on, as bytes; the address of a new symbol is an argument. SymbolSpace/Hash: the hash
-- function, SymbolSpace/Chain and Laws: the lemmas, SymbolSpace/Interning: the theorems.
--
-- Literal: dbcc-common.c, the constants as the tokens spell them. Literal/Integer, Character and
-- Floating have `dbcc_common_integer_get_info`, `dbcc_common_char_constant_value` and
-- `dbcc_common_floating_point_get_info`. Only one loop of them needs fuel, the one that a universal
-- character name never leaves: its fuel is an argument, and any amount is too little. The UTF-8
-- decoder of dsk/ is a parameter.
--
-- Statement: dbcc-statement.c. Statement/Switch: the collection of the case labels in a tree and
-- the table of the cases; `DSK_RBTREE_INSERT` of dsk/dsk-rbtree-macros.h is a parameter, with its
-- documented behaviour as the record `RbtreeInsert` in Statement/Switch/Tree, which
-- Statement/Switch/Spine fills for the tests. Statement/Build: what the functions build.
--
-- Not modelled: the parser and the preprocessor, which are to follow; the freeing of memory; the
-- output of messages and of JSON; the grammar, the parser generator and the library under dsk/,
-- which are not this program's code.

pub mod Error
pub mod Base
pub mod Bits
pub mod Target
pub mod CType
pub mod PtrTable
pub mod Value
pub mod Operator
pub mod Constant
pub mod Namespace
pub mod Construct
pub mod Expr
pub mod Sample
pub mod SymbolSpace
pub mod Literal
pub mod Statement
