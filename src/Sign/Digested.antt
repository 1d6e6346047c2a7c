-- ===== src/Sign/Digested.antt =====
-- The content digest of a signed file as a verifier computes it, and the values that go into it.
use hap_resigner.Prelude.{
  ℕ, ◌+◌, ◌≡◌, ◌≢◌, refl, ap, sym, ◌∙◌, false, List, [], ◌∷◌, ◌++◌, arith, append_assoc, append-nil,
  ◌==◌, if◌then◌else◌, length, length-append, take, drop, slice, slice_middle, Bytes, All,
}
use hap_resigner.Format.{HapLayout, SigningBlock, SigningBlockEntry, type_profile, type_signer}
use hap_resigner.Digest.{compute_content_digest}
use hap_resigner.Block.{BlockValue, concat_values}
use hap_resigner.Block.Table.{entries_at}
use hap_resigner.Block.Patch.{patched}
use hap_resigner.Sign.{block_values}
use hap_resigner.Sign.Output.{with_signer}
use hap_resigner.Sign.Blocks.{Properties}

-- The values of the entries that are no signer block, in the order of the table.
abbrev pub unsigned_values : Bytes → List SigningBlockEntry → List Bytes
unsigned_values bytes [] = []
unsigned_values bytes (e ∷ es) =
    if e.block_type == type_signer
    then unsigned_values bytes es
    else slice e.range.start e.range.stop bytes ∷ unsigned_values bytes es

-- The content digest of a signed file, from its layout alone: of what stands before the block, of the
-- central directory, and of the EOCD record with the block's start as the directory's offset.
abbrev pub digest_of : (Bytes → Bytes) → Bytes → HapLayout → SigningBlock → Bytes
digest_of sha256 bytes l b =
    compute_content_digest sha256
      (take b.start bytes
        ∷ slice l.central_directory_offset (l.central_directory_offset + l.central_directory_size)
            bytes
        ∷ patched (drop l.eocd_offset bytes) b.start
        ∷ [])
      (unsigned_values bytes b.entries)

abbrev pub NoSigner : List BlockValue → Type 0
NoSigner = All (λ b. b.block_type ≢ type_signer)

pub unsigned_values-eq :
    (blocks : List BlockValue) (cms bytes front back : Bytes) (at : ℕ)
    → NoSigner blocks
    → bytes ≡ front ++ (concat_values blocks ++ back)
    → at ≡ length front
    → unsigned_values bytes (entries_at at (with_signer blocks cms)) ≡ block_values blocks
unfolding entries_at concat_values block_values
unsigned_values-eq [] cms bytes front back at n split e = refl
unsigned_values-eq (b ∷ bs) cms bytes front back at (not_signer, n) split e =
    let here : bytes ≡ front ++ (b.value ++ (concat_values bs ++ back)) =
      split ∙ simp append_assoc in
    let later : bytes ≡ (front ++ b.value) ++ (concat_values bs ++ back) =
      split ∙ simp append_assoc in
    let other : (b.block_type == type_signer) ≡ false = ground arith in
    let rest =
      unsigned_values-eq bs cms bytes (front ++ b.value) back (at + length b.value) n later
        (omega (arith, length-append front b.value)) in
    let value : slice at (at + length b.value) bytes ≡ b.value =
      ap (slice at (at + length b.value)) here
      ∙ slice_middle at (at + length b.value) front b.value (concat_values bs ++ back) e
          (omega arith) in
    rw other (rw (rest, value))

pub concat_values-with_signer :
    (blocks : List BlockValue) (cms : Bytes)
    → concat_values (with_signer blocks cms) ≡ concat_values blocks ++ cms
unfolding concat_values
concat_values-with_signer [] cms = append-nil cms
concat_values-with_signer (b ∷ bs) cms =
    ap (λ t. b.value ++ t) (concat_values-with_signer bs cms)
    ∙ sym (append_assoc b.value (concat_values bs) cms)

pub Properties-NoSigner :
    (profile : Bytes) (front : List BlockValue)
    → Properties front
    → NoSigner (front ++ (record { block_type = type_profile; value = profile } ∷ []))
Properties-NoSigner profile [] p = (omega arith, tt)
Properties-NoSigner profile (b ∷ bs) (is_property, ps) =
    (ground arith, Properties-NoSigner profile bs ps)
