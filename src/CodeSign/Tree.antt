-- ===== src/CodeSign/Tree.antt =====
-- The tree in the property block that `build_code_sign_property` returns.
use hap_resigner.Prelude.{
  ℕ, ◌≤◌, ◌≡◌, ap, sym, subst, length-take, map_err-eq-ok, Text, ◌∙◌, false, not, some, ◌++◌, arith,
  length, take, ok, >>=-eq-ok, ok-injective, fail_if, fail_if-eq-ok, map_err, ltb, ◌==◌, Bytes,
  to_le,
}
use hap_resigner.SignErrors.{CodeSignError}
use hap_resigner.External.{Libraries, SigningIdentity}
use hap_resigner.Cms.{build_detached_cms}
use hap_resigner.CodeSign.Merkle.{generate_merkle_tree}
use hap_resigner.CodeSign.Verity.{FsVerityOutput, descriptor, format_digest, generate_fsverity}
use hap_resigner.CodeSign.SignInfo.{IsSignInfo, encode_sign_info-IsSignInfo}
use hap_resigner.CodeSign.Segments.{
  hap_info_magic, encode_sign_info, encode_fsverity_info_segment, encode_native_segment,
}
use hap_resigner.CodeSign.Archive.{CodeSignInputs, collect_code_sign_inputs}
use hap_resigner.CodeSign.Owner.{code_sign_owner_id}
use hap_resigner.CodeSign.Property.{
  tree_offset_of, zero_padding_of, encode_code_sign, sign_native, build_code_sign_property,
}
use hap_resigner.CodeSign.Placed.{IsPlaced, property-IsPlaced}

module _ (lib : Libraries) where
  open lib use {SigningKey, sha256, zip_open}

  -- A property block for `at`: it has the tree of the data of the archive, and the sign info of the
  -- identity's signature of the tree's descriptor.
  pub record HasTree (input profile : Bytes) (identity : SigningIdentity SigningKey) (at : ℕ)
      (property : Bytes) : Type 0 where
    pub inputs : CodeSignInputs
    pub collected : collect_code_sign_inputs lib input ≡ ok inputs
    pub fits : inputs.hap_data_size ≤ length input
    pub root : Bytes
    pub tree : Bytes
    pub generated : generate_merkle_tree sha256 (take inputs.hap_data_size input) ≡ ok (root, tree)
    pub tree_offset : ℕ
    pub owner : Text
    pub owner_is : code_sign_owner_id lib profile ≡ ok owner
    pub cms : Bytes
    pub signed :
        build_detached_cms lib
          (format_digest (sha256 (descriptor inputs.hap_data_size root tree_offset)))
          owner
          identity
        ≡ ok cms
    pub info : Bytes
    pub info_is : IsSignInfo inputs.hap_data_size tree_offset cms root tree info
    pub placed : IsPlaced at tree_offset tree (to_le 4 hap_info_magic ++ info) property

  -- What the fs-verity output is.
  record IsVerity (bytes : Bytes) (size at : ℕ) (o : FsVerityOutput) : Type 0 where
    generated : generate_merkle_tree sha256 bytes ≡ ok (o.root_hash, o.tree)
    formatted : o.formatted_digest ≡ format_digest (sha256 (descriptor size o.root_hash at))

  generate_fsverity-IsVerity :
      (bytes : Bytes) (size at : ℕ) {o : FsVerityOutput}
      → length bytes ≡ size
      → generate_fsverity sha256 bytes at ≡ ok o
      → IsVerity bytes size at o
  unfolding generate_fsverity
  generate_fsverity-IsVerity bytes size at sized h =
      let ((root, tree), made, h1) = >>=-eq-ok (generate_merkle_tree sha256 bytes) _ h in
      subst (IsVerity bytes size at) (ok-injective h1) (record {
        generated = made;
        formatted = ap (λ n. format_digest (sha256 (descriptor n root at))) sized;
      })

  pub build_code_sign_property-HasTree :
      (input profile : Bytes) (identity : SigningIdentity SigningKey) (at : ℕ) {property : Bytes}
      → build_code_sign_property lib input profile identity at ≡ ok property
      → HasTree input profile identity at property
  unfolding build_code_sign_property
  build_code_sign_property-HasTree input profile identity at h =
      let (owner, owner_is, h1) = >>=-eq-ok (code_sign_owner_id lib profile) _ h in
      let (inputs, collected, h2) = >>=-eq-ok (collect_code_sign_inputs lib input) _ h1 in
      let (t, ht, h3) = >>=-eq-ok (tree_offset_of at) _ h2 in
      let (z, hz, h4) = >>=-eq-ok (zero_padding_of t at) _ h3 in
      let size = inputs.hap_data_size in
      let (_, fits, h5) =
        >>=-eq-ok (fail_if (ltb (length input) size) CodeSignError.size_limit) _ h4 in
      let (verity, hv, h6) = >>=-eq-ok (generate_fsverity sha256 (take size input) t) _ h5 in
      let (cms, hm, h7) =
        >>=-eq-ok
          (map_err CodeSignError.cms
            (build_detached_cms lib verity.formatted_digest owner identity))
          _ h6 in
      let (info, hi, h8) = >>=-eq-ok (encode_sign_info size cms (some (verity, t))) _ h7 in
      let (archive, _, h9) = >>=-eq-ok (map_err CodeSignError.zip (zip_open input)) _ h8 in
      let (natives, _, h10) =
        >>=-eq-ok (sign_native lib archive.files owner identity inputs.native_files) _ h9 in
      let hap = to_le 4 hap_info_magic ++ info in
      let (native, _, h11) = >>=-eq-ok (encode_native_segment natives) _ h10 in
      let has_native = not (length natives == 0) in
      let (code_sign, hc, h12) =
        >>=-eq-ok
          (encode_code_sign z verity.tree encode_fsverity_info_segment hap native has_native) _
          h11 in
      let within : ltb (length input) size ≡ false = fail_if-eq-ok _ _ fits in
      let below : size ≤ length input = ground arith in
      let is_verity =
        generate_fsverity-IsVerity (take size input) size t (omega (arith, length-take size input))
          hv in
      record {
        inputs = inputs;
        collected = collected;
        fits = below;
        root = verity.root_hash;
        tree = verity.tree;
        generated = is_verity.generated;
        tree_offset = t;
        owner = owner;
        owner_is = owner_is;
        cms = cms;
        signed =
            ap (λ d. build_detached_cms lib d owner identity) (sym is_verity.formatted)
            ∙ map_err-eq-ok CodeSignError.cms _ hm;
        info = info;
        info_is = encode_sign_info-IsSignInfo size cms verity t hi;
        placed = property-IsPlaced at verity.tree hap native has_native ht hz hc h12;
      }
