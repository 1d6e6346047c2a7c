-- ===== src/Sign.antt =====
-- `sign_hap` of src/hap/sign.rs.
pub mod Input
pub mod Output
pub mod Blocks
pub mod Digested
pub mod Signed
pub mod Tree
use hap_resigner.Prelude.{
  ℕ, ◌+◌, ◌*◌, Bool, true, false, not, Option, none, some, List, [], ◌∷◌, ◌++◌, if◌then◌else◌,
  length, take, drop, slice, Result, ok, err, ◌>>=◌, ok_or, and_then, map_err, is_none, Bytes,
  checked_add, checked_mul, u32_try_from,
}
use hap_resigner.Format.{
  SigningBlock, HapLayout, type_profile, type_property, type_signer, block_value, parse_hap,
}
use hap_resigner.SignErrors.{HapSignError}
use hap_resigner.Block.{
  BlockValue, preserved_optional_blocks, encode_digest_pairs, encode_signing_block, write_u32,
}
use hap_resigner.Digest.{compute_content_digest}
use hap_resigner.External.{Libraries, SigningIdentity}
use hap_resigner.Cms.{build_attached_cms}
use hap_resigner.CodeSign.Archive.{has_runnable_files, align_zip_for_code_sign}
use hap_resigner.CodeSign.Property.{build_code_sign_property}

-- `layout.signing_block.map_or(layout.central_directory_offset, |block| block.start)`.
unfoldable pub block_start : HapLayout → ℕ
block_start layout = elim layout.signing_block [
  | none ↦ layout.central_directory_offset
  | some block ↦ block.start
]

unfoldable pub property_missing : Bytes → Option SigningBlock → Bool
property_missing input none = true
property_missing input (some block) = is_none (block_value block input type_property)

unfoldable pub block_values : List BlockValue → List Bytes
block_values [] = []
block_values (b ∷ bs) = b.value ∷ block_values bs

-- The place of the code-sign block: behind the table, which gets two blocks more, and behind the
-- property's own 12 bytes.
unfoldable pub code_sign_offset_of : ℕ → ℕ → Result HapSignError ℕ
code_sign_offset_of start block_count = do
  final_block_count ← ok_or (checked_add block_count 2) HapSignError.size_limit
  table_size ← ok_or (checked_mul final_block_count 12) HapSignError.size_limit
  ok_or (and_then (checked_add start table_size) (λ offset. checked_add offset 12))
      HapSignError.size_limit

-- The parts of the file around the signing block.
pub record Parts : Type 0 where
  pub before : Bytes
  pub central_directory : Bytes
  pub eocd : Bytes

unfoldable pub split_parts : Bytes → HapLayout → Parts
split_parts input layout = record {
  before = take (block_start layout) input;
  central_directory =
      slice layout.central_directory_offset
        (layout.central_directory_offset + layout.central_directory_size) input;
  eocd = drop layout.eocd_offset input;
}

module _ (lib : Libraries) where
  open lib use {SigningKey, sha256}

  -- `property_missing && has_runnable_files(input)?`: the archive is opened only if the property is
  -- missing.
  unfoldable pub needs_code_sign : Bytes → HapLayout → Result HapSignError Bool
  needs_code_sign input layout =
      if property_missing input layout.signing_block
      then map_err HapSignError.code_sign (has_runnable_files lib input)
      else ok false

  unfoldable pub align_input : Bytes → Bool → Result HapSignError Bytes
  align_input input needed =
      if needed
      then map_err HapSignError.code_sign (align_zip_for_code_sign lib input)
      else ok input

  -- The blocks before the signer block.
  unfoldable pub optional_blocks_of :
      Bytes
      → HapLayout
      → SigningIdentity SigningKey
      → Bytes
      → Bool
      → Result HapSignError (List BlockValue)
  optional_blocks_of input layout identity profile needed = do
    preserved ← map_err HapSignError.format (preserved_optional_blocks input layout.signing_block)
    let blocks = preserved ++ (record { block_type = type_profile; value = profile } ∷ [])
    if not needed then ok blocks else do
      code_sign_offset ← code_sign_offset_of (block_start layout) (length blocks)
      property ←
          map_err HapSignError.code_sign
            (build_code_sign_property lib input profile identity code_sign_offset)
      ok (record { block_type = type_property; value = property } ∷ blocks)

  -- The digest of the parts and the blocks, signed.
  unfoldable pub sign_content :
      Parts → Bytes → List BlockValue → SigningIdentity SigningKey → Result HapSignError Bytes
  sign_content parts eocd blocks identity = do
    let digest =
        compute_content_digest sha256 (parts.before ∷ parts.central_directory ∷ eocd ∷ [])
          (block_values blocks)
    map_err HapSignError.cms (build_attached_cms lib (encode_digest_pairs digest) identity)

  -- From the parts and the blocks to the signed file.
  unfoldable pub assemble :
      Parts → ℕ → List BlockValue → SigningIdentity SigningKey → Result HapSignError Bytes
  assemble parts start optional_blocks identity = do
    start_word ← ok_or (u32_try_from start) HapSignError.size_limit
    digest_eocd ← write_u32 parts.eocd 16 start_word
    cms ← sign_content parts digest_eocd optional_blocks identity
    signing_block ←
        encode_signing_block
          (optional_blocks ++ (record { block_type = type_signer; value = cms } ∷ []))
    new_cd_offset ←
        ok_or (and_then (checked_add start (length signing_block)) u32_try_from)
          HapSignError.size_limit
    eocd ← write_u32 digest_eocd 16 new_cd_offset
    ok (parts.before ++ (signing_block ++ (parts.central_directory ++ eocd)))

  unfoldable pub sign_hap : Bytes → SigningIdentity SigningKey → Bytes → Result HapSignError Bytes
  sign_hap input identity profile = do
    initial_layout ← map_err HapSignError.format (parse_hap input)
    needed ← needs_code_sign input initial_layout
    aligned ← align_input input needed
    layout ← map_err HapSignError.format (parse_hap aligned)
    blocks ← optional_blocks_of aligned layout identity profile needed
    assemble (split_parts aligned layout) (block_start layout) blocks identity
