-- ===== src/CodeSign/Property.antt =====
-- `build_code_sign_property` of code_sign.rs: the property block with the tree of the HAP's data, its
-- signature and those of the native files.
use hap_resigner.Prelude.{
  ℕ, ◌+◌, ◌-◌, ◌*◌, Bool, not, none, some, List, [], ◌∷◌, ◌++◌, ltb, ◌==◌, if◌then◌else◌, length,
  take, replicate, Result, ok, err, ◌>>=◌, ◌>>◌, fail_if, ok_or, and_then, map_err, Bytes, Text,
  codes, to_le, checked_add,
}
use hap_resigner.SignErrors.{CodeSignError}
use hap_resigner.External.{Libraries, SigningIdentity, ZipFile}
use hap_resigner.Cms.{build_detached_cms}
use hap_resigner.CodeSign.Sizes.{fsverity_block_size, round_up, put_u32}
use hap_resigner.CodeSign.Verity.{generate_fsverity}
use hap_resigner.CodeSign.Segments.{
  hap_info_magic, flag, encode_sign_info, encode_fsverity_info_segment, encode_native_segment,
  encode_segment_header,
}
use hap_resigner.CodeSign.Archive.{
  NativeFilePlan, by_index, read_zip_entry, collect_code_sign_inputs,
}
use hap_resigner.CodeSign.Owner.{code_sign_owner_id}

abbrev pub code_sign_sub_block_type : ℕ
code_sign_sub_block_type = 0x3000_0001

abbrev pub code_sign_magic : ℕ
code_sign_magic = 0xE046_C8C6_5389_FCCD

abbrev pub code_sign_fixed_header_size : ℕ
code_sign_fixed_header_size = 32 + 3 * 12

-- The offset in the file at which the tree is to stand: the next page behind the fixed header.
unfoldable pub tree_offset_of : ℕ → Result CodeSignError ℕ
tree_offset_of code_sign_offset = do
  header_end ←
      ok_or (checked_add code_sign_offset code_sign_fixed_header_size) CodeSignError.size_limit
  round_up header_end fsverity_block_size

-- `checked_sub`, where the minuend is not the smaller.
unfoldable pub zero_padding_of : ℕ → ℕ → Result CodeSignError ℕ
zero_padding_of tree_offset code_sign_offset =
    if ltb tree_offset (code_sign_offset + code_sign_fixed_header_size)
    then err CodeSignError.size_limit
    else ok (tree_offset - (code_sign_offset + code_sign_fixed_header_size))

-- The fixed header: magic, version, size, segment count, flags, and the three segments' places.
unfoldable pub encode_header : ℕ → Bool → ℕ × ℕ → ℕ × ℕ → ℕ × ℕ → Result CodeSignError Bytes
encode_header block_size has_native (fsverity_at, fsverity_size) (hap_at, hap_size)
      (native_at, native_size) =
    do
      sized ← put_u32 (to_le 8 code_sign_magic ++ to_le 4 1) block_size
      let flags = 1 + 2 * flag has_native
      first ←
          encode_segment_header (((sized ++ to_le 4 3) ++ to_le 4 flags) ++ replicate 8 0) 1
            fsverity_at fsverity_size
      second ← encode_segment_header first 2 hap_at hap_size
      encode_segment_header second 3 native_at native_size

-- From the segments to the code-sign block.
unfoldable pub encode_code_sign :
    ℕ → Bytes → Bytes → Bytes → Bytes → Bool → Result CodeSignError Bytes
encode_code_sign zero_padding_size tree fsverity_segment hap_segment native_segment has_native = do
  first_segment_offset ←
      ok_or
        (and_then (checked_add code_sign_fixed_header_size zero_padding_size)
          (λ size. checked_add size (length tree)))
        CodeSignError.size_limit
  hap_segment_offset ←
      ok_or (checked_add first_segment_offset (length fsverity_segment)) CodeSignError.size_limit
  native_segment_offset ←
      ok_or (checked_add hap_segment_offset (length hap_segment)) CodeSignError.size_limit
  block_size ←
      ok_or (checked_add native_segment_offset (length native_segment)) CodeSignError.size_limit
  header ←
      encode_header block_size has_native (first_segment_offset, length fsverity_segment)
        (hap_segment_offset, length hap_segment) (native_segment_offset, length native_segment)
  padded ← ok_or (checked_add (length header) zero_padding_size) CodeSignError.size_limit
  let code_sign =
      header
      ++ (replicate zero_padding_size 0
          ++ (tree ++ (fsverity_segment ++ (hap_segment ++ native_segment))))
  fail_if (not (length code_sign == block_size))
      (CodeSignError.invalid_structure (codes "code-sign block size mismatch"))
  ok code_sign

-- The property: type, length and place of the code-sign block, and the block.
unfoldable pub encode_property : Bytes → ℕ → Result CodeSignError Bytes
encode_property code_sign code_sign_offset = do
  sized ← put_u32 (to_le 4 code_sign_sub_block_type) (length code_sign)
  placed ← put_u32 sized code_sign_offset
  ok (placed ++ code_sign)

module _ (lib : Libraries) where
  open lib use {SigningKey, FileOptions, sha256, zip_open}

  unfoldable pub sign_native :
      List (Result Text (ZipFile FileOptions))
      → Text
      → SigningIdentity SigningKey
      → List NativeFilePlan
      → Result CodeSignError (List (Text × Bytes))
  sign_native files owner_id identity [] = ok []
  sign_native files owner_id identity (native ∷ natives) = do
    file ← map_err CodeSignError.zip (by_index lib files native.index)
    bytes ← read_zip_entry lib file native.size native.name
    fsverity ← generate_fsverity sha256 bytes 0
    cms ←
        map_err CodeSignError.cms
          (build_detached_cms lib fsverity.formatted_digest owner_id identity)
    sign_info ← encode_sign_info (length bytes) cms none
    rest ← sign_native files owner_id identity natives
    ok ((native.name, sign_info) ∷ rest)

  unfoldable pub build_code_sign_property :
      Bytes → Bytes → SigningIdentity SigningKey → ℕ → Result CodeSignError Bytes
  build_code_sign_property aligned_hap profile identity code_sign_offset = do
    owner_id ← code_sign_owner_id lib profile
    inputs ← collect_code_sign_inputs lib aligned_hap
    tree_offset ← tree_offset_of code_sign_offset
    zero_padding_size ← zero_padding_of tree_offset code_sign_offset
    fail_if (ltb (length aligned_hap) inputs.hap_data_size) CodeSignError.size_limit
    hap_fsverity ← generate_fsverity sha256 (take inputs.hap_data_size aligned_hap) tree_offset
    hap_cms ←
        map_err CodeSignError.cms
          (build_detached_cms lib hap_fsverity.formatted_digest owner_id identity)
    hap_sign_info ← encode_sign_info inputs.hap_data_size hap_cms (some (hap_fsverity, tree_offset))
    archive ← map_err CodeSignError.zip (zip_open aligned_hap)
    native_sign_infos ← sign_native archive.files owner_id identity inputs.native_files
    let hap_segment = to_le 4 hap_info_magic ++ hap_sign_info
    native_segment ← encode_native_segment native_sign_infos
    code_sign ←
        encode_code_sign zero_padding_size hap_fsverity.tree encode_fsverity_info_segment
          hap_segment native_segment (not (length native_sign_infos == 0))
    encode_property code_sign code_sign_offset
