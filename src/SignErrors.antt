-- ===== src/SignErrors.antt =====
-- The error types of src/hap/sign.rs and src/hap/code_sign.rs.
use hap_resigner.Prelude.{ℕ, Text}
use hap_resigner.Format.{FormatError}

pub data CodeSignError : Type 0 where
  format : FormatError → CodeSignError
  size_limit : CodeSignError
  zip : Text → CodeSignError
  io : Text → CodeSignError
  cms : Text → CodeSignError
  profile : Text → CodeSignError
  alignment : Text → CodeSignError
  runnable_compression : Text → CodeSignError
  unsupported : Text → CodeSignError
  entry_too_large : ℕ → ℕ → CodeSignError
  archive_too_large : ℕ → CodeSignError
  size_mismatch : Text → CodeSignError
  invalid_structure : Text → CodeSignError

pub data HapSignError : Type 0 where
  format : FormatError → HapSignError
  size_limit : HapSignError
  cms : Text → HapSignError
  code_sign : CodeSignError → HapSignError
