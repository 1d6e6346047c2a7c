-- ===== src/Sign/Blocks.antt =====
-- The blocks that `sign_hap` writes: preserved property blocks, the profile, the signer.
use hap_resigner.Prelude.{
  ◌≡◌, refl, ap, sym, ◌∙◌, subst, Bool, false, Option, none, some, List, [], ◌∷◌, ◌++◌, arith, ◌==◌,
  ==_iff, Bool-cases, inl, inr, ok, >>=-eq-ok, ok-injective, map_err, map_err-eq-ok, Bytes, length,
  append_assoc, All,
}
use hap_resigner.Format.{
  SigningBlock, SigningBlockEntry, HapLayout, type_profile, type_property, type_signer,
}
use hap_resigner.SignErrors.{HapSignError}
use hap_resigner.External.{Libraries, SigningIdentity}
use hap_resigner.Block.{BlockValue, preserve_entry, preserve_entries, preserved_optional_blocks}
use hap_resigner.Block.RoundTrip.{first_value}
use hap_resigner.Block.Table.{WordTypes}
use hap_resigner.CodeSign.Property.{build_code_sign_property}
use hap_resigner.Sign.{block_start, code_sign_offset_of, optional_blocks_of}
use hap_resigner.Sign.Output.{with_signer}

abbrev pub Properties : List BlockValue → Type 0
Properties = All (λ b. b.block_type ≡ type_property)

-- Property blocks with the profile behind them.
pub record IsOptional (profile : Bytes) (blocks : List BlockValue) : Type 0 where
  pub front : List BlockValue
  pub properties : Properties front
  pub split : blocks ≡ front ++ (record { block_type = type_profile; value = profile } ∷ [])

preserve_entry-type :
    (bytes : Bytes) (e : SigningBlockEntry) {b : BlockValue}
    → preserve_entry bytes e ≡ ok b
    → b.block_type ≡ e.block_type
unfolding preserve_entry
preserve_entry-type bytes e h = ground arith

preserve_entries-Properties :
    (bytes : Bytes) (es : List SigningBlockEntry) {bs : List BlockValue}
    → preserve_entries bytes es ≡ ok bs
    → Properties bs
unfolding preserve_entries
preserve_entries-Properties bytes [] h = subst Properties (ok-injective h) tt
preserve_entries-Properties bytes (e ∷ es) h = elim (Bool-cases (e.block_type == type_property)) [
  | inl same ↦
      let (b, hb, h1) = >>=-eq-ok (preserve_entry bytes e) _ (rw same at h) in
      let (bs, hbs, h2) = >>=-eq-ok (preserve_entries bytes es) _ h1 in
      let is_property : e.block_type ≡ type_property = (==_iff e.block_type type_property).0 same in
      subst Properties (ok-injective h2)
        (preserve_entry-type bytes e hb ∙ is_property, preserve_entries-Properties bytes es hbs)
  | inr other ↦ preserve_entries-Properties bytes es (rw other at h)
]

pub preserved-Properties :
    (bytes : Bytes) (o : Option SigningBlock) {bs : List BlockValue}
    → preserved_optional_blocks bytes o ≡ ok bs
    → Properties bs
unfolding preserved_optional_blocks
preserved-Properties bytes none h = subst Properties (ok-injective h) tt
preserved-Properties bytes (some b) h = preserve_entries-Properties bytes b.entries h

module _ (lib : Libraries) where
  open lib use {SigningKey}

  pub optional_blocks_of-IsOptional :
      (input : Bytes) (layout : HapLayout) (identity : SigningIdentity SigningKey) (profile : Bytes)
      (needed : Bool) {blocks : List BlockValue}
      → optional_blocks_of lib input layout identity profile needed ≡ ok blocks
      → IsOptional profile blocks
  unfolding optional_blocks_of
  optional_blocks_of-IsOptional input layout identity profile needed h =
      let kept =
        map_err HapSignError.format (preserved_optional_blocks input layout.signing_block) in
      let (preserved, hp, h1) = >>=-eq-ok kept _ h in
      let old =
        preserved-Properties input layout.signing_block (map_err-eq-ok HapSignError.format _ hp) in
      let plain = preserved ++ (record { block_type = type_profile; value = profile } ∷ []) in
      elim (Bool-cases needed) [
        | inl yes_needed ↦
            let (offset, _, h2) =
              >>=-eq-ok (code_sign_offset_of (block_start layout) (length plain)) _
                (rw yes_needed at h1) in
            let (property, _, h3) =
              >>=-eq-ok
                (map_err HapSignError.code_sign
                  (build_code_sign_property lib input profile identity offset))
                _ h2 in
            record {
              front = record { block_type = type_property; value = property } ∷ preserved;
              properties = (refl, old);
              split = sym (ok-injective h3);
            }
        | inr not_needed ↦ record {
          front = preserved;
          properties = old;
          split = sym (ok-injective (rw not_needed at h1));
        }
      ]

-- The profile and the signer are found behind any property blocks.
first_value-profile :
    (front rest : List BlockValue) (profile : Bytes)
    → Properties front
    → first_value
        (front ++ (record { block_type = type_profile; value = profile } ∷ rest))
        type_profile
      ≡ some profile
first_value-profile [] rest profile p = refl
first_value-profile (b ∷ bs) rest profile (is_property, ps) =
    let other : (b.block_type == type_profile) ≡ false = ground arith in
    rw other (first_value-profile bs rest profile ps)

first_value-signer :
    (front : List BlockValue) (profile cms : Bytes)
    → Properties front
    → first_value
        (front
          ++ (record { block_type = type_profile; value = profile }
              ∷ (record { block_type = type_signer; value = cms } ∷ [])))
        type_signer
      ≡ some cms
first_value-signer [] profile cms p = refl
first_value-signer (b ∷ bs) profile cms (is_property, ps) =
    let other : (b.block_type == type_signer) ≡ false = ground arith in
    rw other (first_value-signer bs profile cms ps)

Properties-WordTypes :
    (front rest : List BlockValue) → Properties front → WordTypes rest → WordTypes (front ++ rest)
Properties-WordTypes [] rest p w = w
Properties-WordTypes (b ∷ bs) rest (is_property, ps) w =
    (ground arith, Properties-WordTypes bs rest ps w)

module _ (profile cms : Bytes) {blocks : List BlockValue} (o : IsOptional profile blocks) where
  with_signer-split :
      with_signer blocks cms
      ≡ o.front
        ++ (record { block_type = type_profile; value = profile }
            ∷ (record { block_type = type_signer; value = cms } ∷ []))
  with_signer-split =
      ap (λ bs. with_signer bs cms) o.split
      ∙ append_assoc o.front (record { block_type = type_profile; value = profile } ∷ []) _

  pub with_signer-WordTypes : WordTypes (with_signer blocks cms)
  with_signer-WordTypes =
      rw with_signer-split
        (Properties-WordTypes o.front _ o.properties (omega arith, (omega arith, tt)))

  pub with_signer-profile : first_value (with_signer blocks cms) type_profile ≡ some profile
  with_signer-profile = rw with_signer-split (first_value-profile o.front _ profile o.properties)

  pub with_signer-signer : first_value (with_signer blocks cms) type_signer ≡ some cms
  with_signer-signer = rw with_signer-split (first_value-signer o.front profile cms o.properties)
