-- ===== src/CodeSign/Archive.antt =====
-- The passes of code_sign.rs over a ZIP archive: `has_runnable_files`, `align_zip_for_code_sign` and
-- `collect_code_sign_inputs`.
use hap_resigner.Prelude.{
  ℕ, zero, suc, ◌+◌, ◌%◌, Bool, true, false, not, ◌&&◌, ◌||◌, Option, none, some, List, [], ◌∷◌,
  ltb, ◌==◌, if◌then◌else◌, bytes_eq, length, text_le, Result, ok, err, ◌>>=◌, ◌>>◌, fail_if, ok_or,
  map_err, is_some, Bytes, Text, codes, checked_add,
}
use hap_resigner.Format.{parse_hap}
use hap_resigner.SignErrors.{CodeSignError}
use hap_resigner.External.{Libraries, Compression, ZipFile}
use hap_resigner.CodeSign.Sizes.{fsverity_block_size}
use hap_resigner.CodeSign.Entries.{
  is_stored, reject_unsupported_entry, classify_runnable, checked_uncompressed_total,
  is_native_name,
}

pub record ZipEntryPlan : Type 0 where
  pub index : ℕ
  pub name : Text
  pub compression : Compression
  pub is_directory : Bool
  pub is_runnable : Bool
  pub uncompressed_size : ℕ

pub record NativeFilePlan : Type 0 where
  pub index : ℕ
  pub name : Text
  pub size : ℕ

pub record CodeSignInputs : Type 0 where
  pub hap_data_size : ℕ
  pub native_files : List NativeFilePlan

unfoldable pub entry_rank : ZipEntryPlan → ℕ
entry_rank entry = if entry.is_runnable then 0 else if is_stored entry.compression then 1 else 2

-- The comparison of `sort_by` is not `Greater`.
unfoldable pub entry_le : ZipEntryPlan → ZipEntryPlan → Bool
entry_le left right =
    ltb (entry_rank left) (entry_rank right)
    || (entry_rank left == entry_rank right && text_le left.name right.name)

-- `sort_by` is stable.
unfoldable pub insert_plan : ZipEntryPlan → List ZipEntryPlan → List ZipEntryPlan
insert_plan plan [] = plan ∷ []
insert_plan plan (p ∷ ps) = if entry_le plan p then plan ∷ (p ∷ ps) else p ∷ insert_plan plan ps

unfoldable pub sort_plans : List ZipEntryPlan → List ZipEntryPlan
sort_plans [] = []
sort_plans (p ∷ ps) = insert_plan p (sort_plans ps)

-- The alignment of one entry, and `first_resource` behind it.
unfoldable pub choose_alignment : ZipEntryPlan → Bool → ℕ × Bool
choose_alignment plan first_resource =
    if plan.is_runnable
    then (fsverity_block_size, first_resource)
    else if first_resource
    then (fsverity_block_size, false)
    else if is_stored plan.compression
    then (4, first_resource)
    else (1, first_resource)

module _ (lib : Libraries) where
  open lib use {
    FileOptions, Writer, with_alignment, zip_open, writer_new, set_comment, add_directory,
    start_file, write_all, finish,
  }

  unfoldable pub runnable_loop :
      List (Result Text (ZipFile FileOptions)) → ℕ → Bool → Result CodeSignError Bool
  runnable_loop [] total_size has_runnable = ok has_runnable
  runnable_loop (entry ∷ entries) total_size has_runnable = do
    file ← map_err CodeSignError.zip entry
    reject_unsupported_entry file.name
    total ← checked_uncompressed_total total_size file.size
    runnable ← classify_runnable file.name file.is_dir file.compression
    runnable_loop entries total (has_runnable || runnable)

  unfoldable pub has_runnable_files : Bytes → Result CodeSignError Bool
  has_runnable_files input = do
    archive ← map_err CodeSignError.zip (zip_open input)
    runnable_loop archive.files 0 false

  -- The first loop of `align_zip_for_code_sign`.
  unfoldable pub plan_loop :
      List (Result Text (ZipFile FileOptions)) → ℕ → ℕ → Result CodeSignError (List ZipEntryPlan)
  plan_loop [] index total_size = ok []
  plan_loop (entry ∷ entries) index total_size = do
    file ← map_err CodeSignError.zip entry
    reject_unsupported_entry file.name
    if bytes_eq file.name (codes ".pages.info")
        then plan_loop entries (index + 1) total_size
        else do
          total ← checked_uncompressed_total total_size file.size
          runnable ← classify_runnable file.name file.is_dir file.compression
          plans ← plan_loop entries (index + 1) total
          ok (
              record {
                index = index;
                name = file.name;
                compression = file.compression;
                is_directory = file.is_dir;
                is_runnable = runnable;
                uncompressed_size = file.size;
              }
              ∷ plans)

  -- `archive.by_index(index)`.
  unfoldable pub by_index :
      List (Result Text (ZipFile FileOptions)) → ℕ → Result Text (ZipFile FileOptions)
  by_index [] index = err (codes "specified file not found in archive")
  by_index (entry ∷ entries) zero = entry
  by_index (entry ∷ entries) (suc index) = by_index entries index

  -- `read_to_end` and `io::copy` of `reader.take(expected_size + 1)`.
  unfoldable pub read_zip_entry : ZipFile FileOptions → ℕ → Text → Result CodeSignError Bytes
  read_zip_entry file expected_size name = do
    limit ← ok_or (checked_add expected_size 1) CodeSignError.size_limit
    bytes ← map_err CodeSignError.io (file.read limit)
    fail_if (not (length bytes == expected_size)) (CodeSignError.size_mismatch name)
    ok bytes

  unfoldable pub copy_zip_entry :
      ZipFile FileOptions → Writer → ℕ → Text → Result CodeSignError Writer
  copy_zip_entry file writer expected_size name = do
    limit ← ok_or (checked_add expected_size 1) CodeSignError.size_limit
    bytes ← map_err CodeSignError.io (file.read limit)
    copied ← map_err CodeSignError.io (write_all writer bytes)
    fail_if (not (length bytes == expected_size)) (CodeSignError.size_mismatch name)
    ok copied

  unfoldable pub write_entry :
      ZipFile FileOptions → ZipEntryPlan → ℕ → Writer → Result CodeSignError Writer
  write_entry file plan alignment writer =
      let options = with_alignment file.options alignment in
      if plan.is_directory
      then map_err CodeSignError.zip (add_directory writer plan.name options)
      else do
        started ← map_err CodeSignError.zip (start_file writer plan.name options)
        copy_zip_entry file started plan.uncompressed_size plan.name

  -- The second loop of `align_zip_for_code_sign`.
  unfoldable pub write_loop :
      List (Result Text (ZipFile FileOptions))
      → List ZipEntryPlan
      → Bool
      → Writer
      → Result CodeSignError Writer
  write_loop files [] first_resource writer = ok writer
  write_loop files (plan ∷ plans) first_resource writer = do
    file ← map_err CodeSignError.zip (by_index files plan.index)
    let (alignment, still_first) = choose_alignment plan first_resource
    next ← write_entry file plan alignment writer
    write_loop files plans still_first next

  unfoldable pub align_zip_for_code_sign : Bytes → Result CodeSignError Bytes
  align_zip_for_code_sign input = do
    archive ← map_err CodeSignError.zip (zip_open input)
    plans ← plan_loop archive.files 0 0
    let writer =
        if bytes_eq archive.comment [] then writer_new else set_comment writer_new archive.comment
    written ← write_loop archive.files (sort_plans plans) true writer
    map_err CodeSignError.zip (finish written)

  -- `hap_data_size` after one entry: it is set by the first entry that is not runnable.
  unfoldable pub data_size_step :
      ZipFile FileOptions → Bool → Option ℕ → Result CodeSignError (Option ℕ)
  data_size_step file is_runnable (some size) = ok (some size)
  data_size_step file is_runnable none = do
    fail_if (not (file.data_start % fsverity_block_size == 0)) (CodeSignError.alignment file.name)
    ok (if is_runnable then none else some file.data_start)

  unfoldable pub collect_loop :
      List (Result Text (ZipFile FileOptions))
      → ℕ
      → ℕ
      → Option ℕ
      → Result CodeSignError (Option ℕ × List NativeFilePlan)
  collect_loop [] index total_size hap_data_size = ok (hap_data_size, [])
  collect_loop (entry ∷ entries) index total_size hap_data_size = do
    file ← map_err CodeSignError.zip entry
    reject_unsupported_entry file.name
    total ← checked_uncompressed_total total_size file.size
    runnable ← classify_runnable file.name file.is_dir file.compression
    data_size ← data_size_step file runnable hap_data_size
    (final_size, natives) ← collect_loop entries (index + 1) total data_size
    ok (
      final_size,
      if not file.is_dir && is_native_name file.name
          then record { index = index; name = file.name; size = file.size } ∷ natives
          else natives,
    )

  unfoldable pub collect_code_sign_inputs : Bytes → Result CodeSignError CodeSignInputs
  collect_code_sign_inputs aligned_hap = do
    layout ← map_err CodeSignError.format (parse_hap aligned_hap)
    fail_if (is_some layout.signing_block)
        (CodeSignError.invalid_structure (codes "aligned HAP still contains a signing block"))
    archive ← map_err CodeSignError.zip (zip_open aligned_hap)
    (hap_data_size, native_files) ← collect_loop archive.files 0 0 none
    ok (record {
      hap_data_size = elim hap_data_size [ none ↦ 0 | some size ↦ size ];
      native_files = native_files;
    })
