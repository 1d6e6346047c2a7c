-- ===== src/Tests/Hap.antt =====
-- Runs of the reader and the signer of HAP files at concrete inputs.
use hap_resigner.Prelude.{
  ℕ, zero, suc, ◌<◌, ◌≡◌, refl, sym, ◌∙◌, ◌↔◌, chunks, chunks_loop, Bool, true, not, ◌&&◌, ◌||◌,
  none, some, [], ◌∷◌, ◌++◌, arith, ◌==◌, ok, Bytes, length, slice, get_range, to_le, from_le,
  bytes_eq,
}
use mathlib.Core.Option
use native.Mathlib.Decide.{dec_lt}
use hap_resigner.Format.{
  HapLayout, SigningBlock, SigningBlockEntry, type_profile, type_signer, block_value, parse_hap,
  parse_signing_block, parse_trailer, parse_entries, parse_entry, read_u32, read_u64, find_entry,
  find_eocd, find_eocd_loop, is_eocd_at,
}
use hap_resigner.Format.Eocd.{IsLastEocd, is_eocd_at_complete, find_eocd_iff}
use hap_resigner.Format.Bounds.{IsValid, parse_hap-IsValid, block_value_lem}
use hap_resigner.Block.{
  concat_values, encode_digest_pairs, encode_row, encode_signing_block, encode_table,
  preserved_optional_blocks, values_size, write_u32,
}
use hap_resigner.Block.RoundTrip.{written, parse-encode_signing_block, block_value-written}
use hap_resigner.Block.Patch.{patched, find_eocd-patched}
use hap_resigner.Digest.{
  chunk_digests, chunk_input, compute_content_digest, count_chunks, digest_chunks, top_input,
  length-chunk_digests,
}
use hap_resigner.Cms.{
  add_certificates, add_owner, build_attached_cms, build_cms, encapsulate, leaf_der,
}
use hap_resigner.CodeSign.Archive.{has_runnable_files, runnable_loop}
use hap_resigner.Sign.{
  align_input, assemble, block_start, block_values, needs_code_sign, optional_blocks_of,
  property_missing, sign_content, sign_hap, split_parts,
}
use hap_resigner.Sign.Output.{OneEocd}
use hap_resigner.Sign.Signed.{IsSigned, sign_hap-IsSigned}
use hap_resigner.Tests.Samples.{
  checksum, sample, signer, empty_zip, sample_profile, signed_file, sample_blocks, sample_block,
}

-- No offset below `n` but `p` passes the test of an EOCD record.
abbrev only_at : Bytes → ℕ → ℕ → Bool
only_at bytes p zero = true
only_at bytes p (suc n) = (not (is_eocd_at bytes n) || n == p) && only_at bytes p n

only_at_lem :
    (bytes : Bytes) (p n o : ℕ)
    → only_at bytes p n ≡ true
    → o < n
    → is_eocd_at bytes o ≡ true
    → o ≡ p
only_at_lem bytes p zero o h lt hit = absurd (omega arith)
only_at_lem bytes p (suc n) o h lt hit = elim (dec_lt o n) [
  | yes below ↦ only_at_lem bytes p n o (ground arith) below hit
  | no above ↦ let e : n ≡ o = omega arith in ground (arith, e, hit, h)
]

only_at-OneEocd : (bytes : Bytes) (p : ℕ) → only_at bytes p (length bytes) ≡ true → OneEocd bytes
only_at-OneEocd bytes p h o q at_o at_q =
    let fits = at_o.fits in
    let fits' = at_q.fits in
    only_at_lem bytes p (length bytes) o h (omega arith) (is_eocd_at_complete bytes o at_o)
    ∙ sym (only_at_lem bytes p (length bytes) q h (omega arith) (is_eocd_at_complete bytes q at_q))

pub signed_file-OneEocd : OneEocd signed_file
unfolding is_eocd_at bytes_eq get_range from_le
signed_file-OneEocd = only_at-OneEocd signed_file 116 refl

pub sign_hap-signed_file : sign_hap sample empty_zip signer sample_profile ≡ ok signed_file
unfolding sign_hap parse_hap find_eocd find_eocd_loop is_eocd_at bytes_eq get_range from_le read_u32
    read_u64 parse_signing_block needs_code_sign property_missing has_runnable_files runnable_loop
    align_input optional_blocks_of preserved_optional_blocks split_parts block_start assemble
    write_u32 to_le sign_content compute_content_digest top_input chunk_digests count_chunks
    digest_chunks chunk_input chunks chunks_loop encode_digest_pairs build_attached_cms build_cms
    encapsulate leaf_der add_owner add_certificates block_values encode_signing_block encode_table
    encode_row values_size concat_values
sign_hap-signed_file = refl

sign_hap-IsSigned_example : IsSigned sample signer sample_profile signed_file
sign_hap-IsSigned_example =
    sign_hap-IsSigned sample empty_zip signer sample_profile sign_hap-signed_file
      signed_file-OneEocd (omega arith)

parse_hap-empty_zip :
    parse_hap empty_zip
    ≡ ok (record {
      eocd_offset = 0;
      central_directory_offset = 0;
      central_directory_size = 0;
      signing_block = none;
    })
unfolding parse_hap find_eocd find_eocd_loop is_eocd_at bytes_eq get_range from_le read_u32
    parse_signing_block
parse_hap-empty_zip = refl

abbrev signed_block : SigningBlock
signed_block = record {
  start = 0;
  size = 116;
  version = 3;
  entries =
      record { block_type = type_profile; range = record { start = 24; stop = 31 } }
      ∷ (record { block_type = type_signer; range = record { start = 31; stop = 84 } } ∷ []);
}

abbrev signed_layout : HapLayout
signed_layout = record {
  eocd_offset = 116;
  central_directory_offset = 116;
  central_directory_size = 0;
  signing_block = some signed_block;
}

parse_hap-signed_file : parse_hap signed_file ≡ ok signed_layout
unfolding parse_hap find_eocd find_eocd_loop is_eocd_at bytes_eq get_range from_le read_u32 read_u64
    parse_signing_block parse_trailer parse_entries parse_entry
parse_hap-signed_file = refl

parse_hap-IsValid_example : IsValid signed_file signed_layout
parse_hap-IsValid_example = parse_hap-IsValid signed_file parse_hap-signed_file

block_value_example :
    block_value signed_block signed_file type_profile
    ≡ Option.map
        (λ (e : SigningBlockEntry). slice e.range.start e.range.stop signed_file)
        (find_entry signed_block.entries type_profile)
block_value_example = block_value_lem signed_file type_profile parse_hap-signed_file refl

find_eocd_iff_example : (find_eocd empty_zip ≡ some 0) ↔ IsLastEocd empty_zip 0
find_eocd_iff_example = find_eocd_iff empty_zip 0

find_eocd-empty_zip : find_eocd ([] ++ empty_zip) ≡ some 0
unfolding find_eocd find_eocd_loop is_eocd_at bytes_eq get_range from_le
find_eocd-empty_zip = refl

find_eocd-patched_example : find_eocd ((1 ∷ 2 ∷ []) ++ patched empty_zip 7) ≡ some 2
find_eocd-patched_example =
    find_eocd-patched [] (1 ∷ 2 ∷ []) empty_zip 7 find_eocd-empty_zip (omega arith)

encode-sample_blocks : encode_signing_block sample_blocks ≡ ok sample_block
unfolding encode_signing_block encode_table encode_row values_size concat_values to_le
encode-sample_blocks = refl

parse-encode_signing_block_example :
    parse_signing_block ((5 ∷ []) ++ (sample_block ++ (6 ∷ []))) 60
    ≡ ok (some (written 1 sample_blocks sample_block))
parse-encode_signing_block_example =
    parse-encode_signing_block sample_blocks sample_block (5 ∷ []) (6 ∷ [])
      (omega arith, (omega arith, tt)) encode-sample_blocks (omega arith)

block_value-written_example :
    block_value
      (written 1 sample_blocks sample_block)
      ((5 ∷ []) ++ (sample_block ++ (6 ∷ [])))
      type_profile
    ≡ some (3 ∷ [])
block_value-written_example =
    block_value-written sample_blocks sample_block (5 ∷ []) (6 ∷ []) type_profile
      encode-sample_blocks

length-chunk_digests_example :
    length (chunk_digests checksum (signed_file ∷ (empty_zip ∷ [])))
    ≡ count_chunks (signed_file ∷ (empty_zip ∷ []))
length-chunk_digests_example = length-chunk_digests checksum (signed_file ∷ (empty_zip ∷ []))
