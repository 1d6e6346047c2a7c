-- ===== src/Block.antt =====
-- The signing block as it is written: src/hap/signing_block.rs, and `encode_signing_block`,
-- `encode_digest_pairs` and `write_u32` of src/hap/sign.rs.
pub mod Table
pub mod Encoded
pub mod RoundTrip
pub mod Patch
use hap_resigner.Prelude.{
  ℕ, ◌+◌, Bool, Option, none, some, List, [], ◌∷◌, ◌++◌, ◌==◌, if◌then◌else◌, length, take, drop,
  get_range, Result, ok, err, ◌>>=◌, ok_or, and_then, map_err, is_none, Bytes, to_le, checked_add,
  checked_mul, u32_try_from,
}
use hap_resigner.Format.{
  FormatError, SigningBlockEntry, SigningBlock, magic_v3, type_property,
  invalid_signing_block_value, invalid_central_directory,
}
use hap_resigner.SignErrors.{HapSignError}

abbrev pub digest_pair_version : ℕ
digest_pair_version = 2

abbrev pub digest_pair_count : ℕ
digest_pair_count = 1

abbrev pub sha256_ecdsa_id : ℕ
sha256_ecdsa_id = 0x201

abbrev pub signing_block_version : ℕ
signing_block_version = 3

pub record BlockValue : Type 0 where
  pub block_type : ℕ
  pub value : Bytes

-- `.map(…)` on one entry that passed the filter.
unfoldable pub preserve_entry : Bytes → SigningBlockEntry → Result FormatError BlockValue
preserve_entry bytes entry = do
  value ← ok_or (get_range entry.range.start entry.range.stop bytes) invalid_signing_block_value
  ok (record { block_type = entry.block_type; value = value })

-- `entries.iter().filter(…).map(…).collect()`: the first error ends it.
unfoldable pub preserve_entries :
    Bytes → List SigningBlockEntry → Result FormatError (List BlockValue)
preserve_entries bytes [] = ok []
preserve_entries bytes (e ∷ es) =
    let rest = preserve_entries bytes es in
    if e.block_type == type_property
    then (do value ← preserve_entry bytes e; values ← rest; ok (value ∷ values))
    else rest

unfoldable pub preserved_optional_blocks :
    Bytes → Option SigningBlock → Result FormatError (List BlockValue)
preserved_optional_blocks bytes none = ok []
preserved_optional_blocks bytes (some block) = preserve_entries bytes block.entries

-- `digest` is a `[u8; 32]`, so `digest.len()` is 32.
unfoldable pub encode_digest_pairs : Bytes → Bytes
encode_digest_pairs digest =
    to_le 4 digest_pair_version
    ++ (to_le 4 digest_pair_count
        ++ (to_le 4 (8 + length digest)
            ++ (to_le 4 sha256_ecdsa_id ++ (to_le 4 (length digest) ++ digest))))

-- `try_fold(0, |total, block| total.checked_add(block.value.len()))`.
unfoldable pub values_size : ℕ → List BlockValue → Result HapSignError ℕ
values_size total [] = ok total
values_size total (b ∷ bs) = do
  next ← ok_or (checked_add total (length b.value)) HapSignError.size_limit
  values_size next bs

unfoldable pub encode_row : ℕ → BlockValue → Result HapSignError Bytes
encode_row offset b = do
  size ← ok_or (u32_try_from (length b.value)) HapSignError.size_limit
  position ← ok_or (u32_try_from offset) HapSignError.size_limit
  ok (to_le 4 b.block_type ++ (to_le 4 size ++ to_le 4 position))

-- The table loop, with the running offset of the next value.
unfoldable pub encode_table : ℕ → List BlockValue → Result HapSignError Bytes
encode_table offset [] = ok []
encode_table offset (b ∷ bs) = do
  row ← encode_row offset b
  next ← ok_or (checked_add offset (length b.value)) HapSignError.size_limit
  rows ← encode_table next bs
  ok (row ++ rows)

-- The loop that appends the values.
unfoldable pub concat_values : List BlockValue → Bytes
concat_values [] = []
concat_values (b ∷ bs) = b.value ++ concat_values bs

unfoldable pub encode_signing_block : List BlockValue → Result HapSignError Bytes
encode_signing_block blocks = do
  table_size ← ok_or (checked_mul (length blocks) 12) HapSignError.size_limit
  values ← values_size 0 blocks
  size ←
      ok_or (and_then (checked_add table_size values) (λ v. checked_add v 32))
        HapSignError.size_limit
  table ← encode_table table_size blocks
  count ← ok_or (u32_try_from (length blocks)) HapSignError.size_limit
  ok (
      table
      ++ (concat_values blocks
          ++ (to_le 4 count ++ (to_le 8 size ++ (magic_v3 ++ to_le 4 signing_block_version)))))

-- `get_mut(offset..offset + 4)` and `copy_from_slice`.
unfoldable pub write_u32 : Bytes → ℕ → ℕ → Result HapSignError Bytes
write_u32 bytes offset value =
    if is_none (get_range offset (offset + 4) bytes)
    then err (HapSignError.format invalid_central_directory)
    else ok (take offset bytes ++ (to_le 4 value ++ drop (offset + 4) bytes))
