-- ===== src/CodeSign/Entries.antt =====
-- What code_sign.rs decides of one ZIP entry: which are runnable, native or refused, and the size
-- budget of an archive.
use hap_resigner.Prelude.{
  ℕ, ◌*◌, Bool, true, false, not, ◌&&◌, ◌||◌, ◌++◌, ltb, if◌then◌else◌, starts_with, ends_with,
  Result, ok, err, ◌>>=◌, ◌>>◌, fail_if, ok_or, Text, codes, checked_add,
}
use hap_resigner.SignErrors.{CodeSignError}
use hap_resigner.External.{Compression, stored, compressed}

abbrev pub max_entry_uncompressed_size : ℕ
max_entry_uncompressed_size = 512 * 1024 * 1024

abbrev pub max_total_uncompressed_size : ℕ
max_total_uncompressed_size = 2 * 1024 * 1024 * 1024

unfoldable pub is_runnable_name : Text → Bool
is_runnable_name name =
    ends_with name (codes ".abc")
    || ends_with name (codes ".an")
    || starts_with name (codes "libs/")

unfoldable pub is_native_name : Text → Bool
is_native_name name = ends_with name (codes ".an") || starts_with name (codes "libs/")

unfoldable pub reject_unsupported_entry : Text → Result CodeSignError (Unit {0})
reject_unsupported_entry name =
    fail_if (starts_with name (codes "hnp/") && ends_with name (codes ".hnp"))
      (CodeSignError.unsupported (codes "nested HNP code signing is not supported: " ++ name))

abbrev pub is_stored : Compression → Bool
is_stored stored = true
is_stored (compressed method) = false

unfoldable pub classify_runnable : Text → Bool → Compression → Result CodeSignError Bool
classify_runnable name is_directory compression =
    if is_directory || not (is_runnable_name name)
    then ok false
    else if not (is_stored compression)
    then err (CodeSignError.runnable_compression name)
    else ok true

unfoldable pub checked_uncompressed_total : ℕ → ℕ → Result CodeSignError ℕ
checked_uncompressed_total total entry_size =
    if ltb max_entry_uncompressed_size entry_size
    then err (CodeSignError.entry_too_large entry_size max_entry_uncompressed_size)
    else do
      next ←
          ok_or (checked_add total entry_size)
            (CodeSignError.archive_too_large max_total_uncompressed_size)
      fail_if (ltb max_total_uncompressed_size next)
          (CodeSignError.archive_too_large max_total_uncompressed_size)
      ok next
