-- ===== src/Error.antt =====
-- The error codes of dbcc-error.h. A `DBCC_Error` is its code: messages, causes and code
-- positions only inform the user.

-- In the order of the enumeration.
pub data ErrorCode : Type 0 where
  unterminated_multiline_comment bad_number_constant bad_hexidecimal_constant : ErrorCode
  bad_decimal_exponent bad_binary_exponent missing_line_terminator : ErrorCode
  unterminated_backslash_sequence unterminated_doublequoted_string : ErrorCode
  bad_universal_character_sequence unterminated_character_constant : ErrorCode
  character_constant_too_short bad_character_sequence bad_backslash_hex unexpected_character :
      ErrorCode
  unexpected_eof parsing_integer parsing_float integer_constant_out_of_bounds bad_utf8 : ErrorCode
  unterminated_preprocessor_directive bad_preprocessor_directive preprocessor_missing_lparen :
      ErrorCode
  preprocessor_macro_invocation_eof preprocessor_macro_invocation preprocessor_concatenation :
      ErrorCode
  preprocessor_integers_only preprocessor_internal preprocessor_invalid_operator : ErrorCode
  preprocessor_syntax preprocessor_incomplete_line preprocessor_unmatched_else : ErrorCode
  preprocessor_unmatched_endif preprocessor_else_not_allowed preprocessor_hash_error : ErrorCode
  too_many_type_specifiers conflicting_qualifiers constant_required duplicate not_found : ErrorCode
  expected_int no_complex_variant nonatomic multiple_definition expected_expression : ErrorCode
  bad_operator struct_empty struct_duplicates enum_duplicates bad_restricted_type : ErrorCode
  bad_atomic_type pointer_subtraction_type_mismatch pointer_math_on_imcomplete_type : ErrorCode
  nonarithmetic_multiply cannot_compare_complex cannot_compare nonarithmetic_values : ErrorCode
  nonscalar_values shift_of_noninteger_value type_mismatch not_a_function bad_cast : ErrorCode
  member_access_incomplete_type unknown_member_access bad_type_for_member_access : ErrorCode
  expected_pointer expected_array pointer_required sizeof_incomplete_type : ErrorCode
  logical_operator_requires_scalars noninteger_bitwise_op noninteger_designator : ErrorCode
  cannot_infer_type duplicate_tag case_duplicate bad_alignof_argument bad_operator_types : ErrorCode
  assignment_type_incomplete assignment_types_incompatible lvalue_required const_lvalue : ErrorCode
  too_many_arguments too_few_arguments no_generic_selection identifier_not_found : ErrorCode
  identifier_is_typedef designator_not_found unserializable expr_not_condition : ErrorCode
  case_expr_nonconstant reading_file : ErrorCode
