-- ===== src/CodeSign/Verity.antt =====
-- `generate_fsverity` of code_sign.rs: the fs-verity descriptor and its formatted digest.
use hap_resigner.Prelude.{
  ℕ, [], ◌∷◌, ◌==◌, if◌then◌else◌, length, replicate, Result, ok, ◌>>=◌, Bytes, codes, to_le,
  overwrite,
}
use hap_resigner.SignErrors.{CodeSignError}
use hap_resigner.CodeSign.Sizes.{sha256_size}
use hap_resigner.CodeSign.Merkle.{generate_merkle_tree}

pub record FsVerityOutput : Type 0 where
  pub root_hash : Bytes
  pub tree : Bytes
  pub formatted_digest : Bytes

-- The writes into `[0_u8; 256]`, in order.
unfoldable pub descriptor : ℕ → Bytes → ℕ → Bytes
descriptor size root_hash tree_offset =
    let header =
      overwrite 2 (12 ∷ []) (overwrite 1 (1 ∷ []) (overwrite 0 (1 ∷ []) (replicate 256 0))) in
    let sized = overwrite 8 (to_le 8 size) header in
    let rooted = overwrite 16 root_hash sized in
    let flagged = overwrite 112 (to_le 4 (if tree_offset == 0 then 0 else 1)) rooted in
    overwrite 120 (to_le 8 tree_offset) flagged

-- The writes into `[0_u8; 12 + 32]`.
unfoldable pub format_digest : Bytes → Bytes
format_digest descriptor_digest =
    let magic = overwrite 0 (codes "FSVerity") (replicate 44 0) in
    let algorithm = overwrite 8 (to_le 2 1) magic in
    let sized = overwrite 10 (to_le 2 sha256_size) algorithm in overwrite 12 descriptor_digest sized

module _ (sha256 : Bytes → Bytes) where
  -- `u64::try_from(data.len())` cannot fail.
  unfoldable pub generate_fsverity : Bytes → ℕ → Result CodeSignError FsVerityOutput
  generate_fsverity bytes tree_offset = do
    (root_hash, tree) ← generate_merkle_tree sha256 bytes
    let descriptor_digest = sha256 (descriptor (length bytes) root_hash tree_offset)
    ok (record {
      root_hash = root_hash;
      tree = tree;
      formatted_digest = format_digest descriptor_digest;
    })
