-- ===== src/Target.antt =====
-- dbcc-target-environment.h: sizes and alignments of the target.
use dbcc.Base.{ℕ, Bool}

-- The fields that the modelled code reads. Each number is one byte in the source.
pub record TargetEnvironment : Type 0 where
  pub is_char_signed : Bool
  pub sizeof_int : ℕ
  pub sizeof_long_int : ℕ
  pub sizeof_long_long_int : ℕ
  pub sizeof_pointer : ℕ
  pub sizeof_wchar : ℕ
  pub alignof_int16 : ℕ
  pub alignof_int32 : ℕ
  pub alignof_int64 : ℕ
  pub alignof_float : ℕ
  pub alignof_double : ℕ
  pub sizeof_long_double : ℕ
  pub alignof_long_double : ℕ
  pub sizeof_bool : ℕ
  pub alignof_bool : ℕ
  pub min_struct_alignof : ℕ
  pub min_struct_sizeof : ℕ
