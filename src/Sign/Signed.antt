-- ===== src/Sign/Signed.antt =====
-- `sign_hap` as a verifier sees it: the returned file is read again, and the digest of its own
-- contents is the one that was signed.
use hap_resigner.Format.{magic_v3}
use hap_resigner.Block.RoundTrip.{first_value}
use hap_resigner.Prelude.{
  to_le, ◌*◌, ℕ, ◌+◌, ◌≡◌, refl, ap, sym, ◌∙◌, subst, some, List, ◌++◌, arith, append_assoc, length,
  length-append, take, drop, slice, slice_middle, take-append, drop-append, ok, >>=-eq-ok, map_err,
  map_err-eq-ok, Bytes, IsU64,
}
use hap_resigner.Format.{HapLayout, SigningBlock, type_profile, type_signer, block_value, parse_hap}
use hap_resigner.SignErrors.{HapSignError}
use hap_resigner.External.{Libraries, SigningIdentity}
use hap_resigner.Cms.{build_attached_cms}
use hap_resigner.Block.{BlockValue, encode_digest_pairs, signing_block_version}
use hap_resigner.Block.Table.{entries_at, length-encode_table}
use hap_resigner.Block.Encoded.{Encoded, encode_signing_block-Encoded}
use hap_resigner.Block.RoundTrip.{written, block_value-written}
use hap_resigner.Block.Patch.{patched, patched-patched}
use hap_resigner.Sign.{
  Parts, block_start, block_values, split_parts, needs_code_sign, align_input, optional_blocks_of,
  sign_content, sign_hap,
}
use hap_resigner.Sign.Input.{IsSplit, split_parts-IsSplit}
use hap_resigner.Sign.Output.{
  with_signer, IsAssembled, assemble-IsAssembled, OneEocd, signed_layout, parse_hap-assembled,
  length-new_front, out-new_front, new_front, new_cd,
}
use hap_resigner.Sign.Blocks.{
  IsOptional, optional_blocks_of-IsOptional, with_signer-WordTypes, with_signer-profile,
  with_signer-signer,
}
use hap_resigner.Sign.Digested.{
  digest_of, unsigned_values, NoSigner, unsigned_values-eq, concat_values-with_signer,
  Properties-NoSigner,
}

-- A file that a verifier accepts, up to the signature itself.
pub record IsSigned (lib : Libraries) (identity : SigningIdentity lib.SigningKey)
    (profile out : Bytes) : Type 0 where
  pub layout : HapLayout
  pub block : SigningBlock
  pub cms : Bytes
  pub parsed : parse_hap out ≡ ok layout
  pub present : layout.signing_block ≡ some block
  pub version : block.version ≡ 3
  pub profile_block : block_value block out type_profile ≡ some profile
  pub signer_block : block_value block out type_signer ≡ some cms
  pub signed :
      build_attached_cms lib (encode_digest_pairs (digest_of lib.sha256 out layout block)) identity
      ≡ ok cms

module _ (lib : Libraries) (identity : SigningIdentity lib.SigningKey) (profile : Bytes)
    (parts : Parts) (start : ℕ) (blocks : List BlockValue) (out : Bytes)
    (split : IsSplit parts start) (a : IsAssembled lib identity parts start blocks out)
    (o : IsOptional profile blocks) (one : OneEocd out) (size : IsU64 (length out)) where
  abbrev all_blocks : List BlockValue
  all_blocks = with_signer blocks a.cms

  abbrev layout : HapLayout
  layout = signed_layout parts start all_blocks a.block

  before-out : take start out ≡ parts.before
  before-out = ap (take start) a.shape ∙ take-append start parts.before _ (sym split.start_is)

  directory-out :
      slice layout.central_directory_offset
        (layout.central_directory_offset + layout.central_directory_size)
        out
      ≡ parts.central_directory
  directory-out =
      let n = length-append parts.before a.block in
      let at = split.start_is in
      let cd = start + length a.block in
      let shape : out
          ≡ (parts.before ++ a.block) ++ (parts.central_directory ++ patched parts.eocd cd) =
        a.shape ∙ sym (append_assoc parts.before a.block _) in
      ap (slice cd (cd + length parts.central_directory)) shape
      ∙ slice_middle cd (cd + length parts.central_directory) (parts.before ++ a.block)
          parts.central_directory (patched parts.eocd cd) (omega arith) (omega arith)

  eocd-out : patched (drop layout.eocd_offset out) start ≡ patched parts.eocd start
  unfolding new_cd
  eocd-out =
      let n = length-new_front lib identity parts start blocks out split a in
      let tail =
        ap (drop layout.eocd_offset) (out-new_front lib identity parts start blocks out split a)
        ∙ drop-append layout.eocd_offset (new_front lib identity parts start blocks out split a)
            (patched parts.eocd (start + length a.block)) (sym n) in
      ap (λ t. patched t start) tail
      ∙ patched-patched parts.eocd (start + length a.block) start a.eocd_fits

  values-out :
      unsigned_values out (entries_at (start + 12 * length all_blocks) all_blocks)
      ≡ block_values blocks
  values-out =
      let e : Encoded all_blocks a.block = encode_signing_block-Encoded all_blocks a.encoded in
      let no_signer =
        subst NoSigner (sym o.split) (Properties-NoSigner profile o.front o.properties) in
      let at = split.start_is in
      let rest : Bytes =
        to_le 4 (length all_blocks)
        ++ (to_le 8 (length a.block) ++ (magic_v3 ++ to_le 4 signing_block_version)) in
      let tail : Bytes = parts.central_directory ++ patched parts.eocd (start + length a.block) in
      unsigned_values-eq blocks a.cms out (parts.before ++ e.table) (a.cms ++ (rest ++ tail))
        (start + 12 * length all_blocks) no_signer
        (a.shape
          ∙ ap (λ b. parts.before ++ (b ++ tail))
              (e.layout ∙ ap (λ v. e.table ++ (v ++ rest)) (concat_values-with_signer blocks a.cms))
          ∙ simp append_assoc)
        (omega (
          arith,
          length-append parts.before e.table,
          length-encode_table (12 * length all_blocks) all_blocks e.rows,
        ))

  assembled-IsSigned : IsSigned lib identity profile out
  unfolding sign_content
  assembled-IsSigned =
      let at = split.start_is in
      let block = written start all_blocks a.block in
      let values = λ (t : ℕ).
        block_value-written all_blocks a.block parts.before
          (parts.central_directory ++ patched parts.eocd (start + length a.block)) t a.encoded in
      let value : (t : ℕ) → block_value block out t ≡ first_value all_blocks t = λ t.
        ap (λ b. block_value block b t) a.shape
        ∙ subst
            (λ s.
              block_value (written s all_blocks a.block)
                (parts.before
                  ++ (a.block
                      ++ (parts.central_directory ++ patched parts.eocd (start + length a.block))))
                t
              ≡ first_value all_blocks t)
            at (values t) in
      record {
        layout = layout;
        block = block;
        cms = a.cms;
        parsed =
            parse_hap-assembled lib identity parts start blocks out split a one size
              (with_signer-WordTypes profile a.cms o);
        present = refl;
        version = refl;
        profile_block = value type_profile ∙ with_signer-profile profile a.cms o;
        signer_block = value type_signer ∙ with_signer-signer profile a.cms o;
        signed =
            rw (before-out, directory-out, eocd-out, values-out)
              (map_err-eq-ok HapSignError.cms _ a.signed);
      }

-- What `sign_hap` returns is a file that `parse_hap` accepts, with a version 3 signing block in which
-- the profile block holds the given profile and the signer block holds a CMS signature of the
-- content digest of the returned file itself: of what stands before the block, of the central
-- directory, of the EOCD record with the block's start for its offset, and of the other blocks'
-- values. The condition: the returned file is below 2 ^ 64 bytes, and has only one EOCD record.
pub sign_hap-IsSigned :
    (lib : Libraries) (input : Bytes) (identity : SigningIdentity lib.SigningKey) (profile : Bytes)
    {out : Bytes}
    → sign_hap lib input identity profile ≡ ok out
    → OneEocd out
    → IsU64 (length out)
    → IsSigned lib identity profile out
unfolding sign_hap
sign_hap-IsSigned lib input identity profile {out} h one size =
    let (first, _, h1) = >>=-eq-ok (map_err HapSignError.format (parse_hap input)) _ h in
    let (needed, _, h2) = >>=-eq-ok (needs_code_sign lib input first) _ h1 in
    let (aligned, _, h3) = >>=-eq-ok (align_input lib input needed) _ h2 in
    let (l, hl, h4) = >>=-eq-ok (map_err HapSignError.format (parse_hap aligned)) _ h3 in
    let (blocks, hb, h5) =
      >>=-eq-ok (optional_blocks_of lib aligned l identity profile needed) _ h4 in
    assembled-IsSigned lib identity profile (split_parts aligned l) (block_start l) blocks out
      (split_parts-IsSplit aligned (map_err-eq-ok HapSignError.format (parse_hap aligned) hl))
      (assemble-IsAssembled lib (split_parts aligned l) (block_start l) blocks identity h5)
      (optional_blocks_of-IsOptional lib aligned l identity profile needed hb) one size
