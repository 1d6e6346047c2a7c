-- ===== src/Sign/Output.antt =====
-- The file that `assemble` puts together, as `parse_hap` reads it.
use hap_resigner.Prelude.{
  ℕ, ◌+◌, ◌≤◌, ◌^◌, ◌≡◌, ap, sym, ◌∙◌, subst, some, List, [], ◌∷◌, ◌++◌, arith, append_assoc,
  length, length-append, ok, >>=-eq-ok, ok-injective, ok_or, ok_or-eq-ok, and_then, Bytes, IsU32,
  IsU64, checked_add, u32_try_from, lt→ltb, ==_iff, ◌==◌, true,
}
use hap_resigner.Format.{
  HapLayout, find_eocd, read_u32, parse_hap, parse_signing_block, type_signer,
}
use hap_resigner.Format.Eocd.{IsEocdAt, find_eocd_iff}
use hap_resigner.Block.{BlockValue, encode_signing_block, write_u32}
use hap_resigner.Block.RoundTrip.{written, parse-encode_signing_block}
use hap_resigner.Block.Table.{WordTypes}
use hap_resigner.Block.Patch.{
  patched, write_u32-patched, patched-patched, read_u32-patched, read_u32-patched_word, patch_found,
  length-patched,
}
use hap_resigner.External.{Libraries, SigningIdentity}
use hap_resigner.Sign.{Parts, sign_content, assemble}
use hap_resigner.Sign.Input.{IsSplit}

-- The signer block behind the other blocks.
abbrev pub with_signer : List BlockValue → Bytes → List BlockValue
with_signer blocks cms = blocks ++ (record { block_type = type_signer; value = cms } ∷ [])

-- What `assemble` did: the block that it wrote, what it signed, and the file around the block.
pub record IsAssembled (lib : Libraries) (identity : SigningIdentity lib.SigningKey) (parts : Parts)
    (start : ℕ) (blocks : List BlockValue) (out : Bytes) : Type 0 where
  pub cms : Bytes
  pub block : Bytes
  pub signed : sign_content lib parts (patched parts.eocd start) blocks identity ≡ ok cms
  pub encoded : encode_signing_block (with_signer blocks cms) ≡ ok block
  pub word : IsU32 (start + length block)
  pub eocd_fits : 20 ≤ length parts.eocd
  pub shape :
      out
      ≡ parts.before
        ++ (block ++ (parts.central_directory ++ patched parts.eocd (start + length block)))

module _ (lib : Libraries) where
  open lib use {SigningKey}

  pub assemble-IsAssembled :
      (parts : Parts) (start : ℕ) (blocks : List BlockValue) (identity : SigningIdentity SigningKey)
      {out : Bytes}
      → assemble lib parts start blocks identity ≡ ok out
      → IsAssembled lib identity parts start blocks out
  unfolding assemble
  assemble-IsAssembled parts start blocks identity h =
      let (word, started, h1) = >>=-eq-ok (ok_or (u32_try_from start) _) _ h in
      let (eocd1, w1, h2) = >>=-eq-ok (write_u32 parts.eocd 16 word) _ h1 in
      let (cms, signed, h3) = >>=-eq-ok (sign_content lib parts eocd1 blocks identity) _ h2 in
      let (block, encoded, h4) = >>=-eq-ok (encode_signing_block (with_signer blocks cms)) _ h3 in
      let (cd, placed, h5) =
        >>=-eq-ok (ok_or (and_then (checked_add start (length block)) u32_try_from) _) _ h4 in
      let (eocd2, w2, h6) = >>=-eq-ok (write_u32 eocd1 16 cd) _ h5 in
      let (e1, fits) = write_u32-patched parts.eocd word w1 in
      let (e2, _) = write_u32-patched eocd1 cd w2 in
      let start_is : word ≡ start = ground (arith, ok_or-eq-ok _ _ started) in
      let place : (cd ≡ start + length block) × IsU32 (start + length block) =
        ground (arith, ok_or-eq-ok _ _ placed) in
      let eocd : eocd2 ≡ patched parts.eocd (start + length block) =
        e2
        ∙ ap (λ t. patched t cd) e1
        ∙ patched-patched parts.eocd word cd fits
        ∙ ap (patched parts.eocd) place.0 in
      record {
        cms = cms;
        block = block;
        signed =
            subst (λ t. sign_content lib parts t blocks identity ≡ ok cms)
              (e1 ∙ ap (patched parts.eocd) start_is) signed;
        encoded = encoded;
        word = place.1;
        eocd_fits = fits;
        shape =
            sym (ok-injective h6)
            ∙ ap (λ t. parts.before ++ (block ++ (parts.central_directory ++ t))) eocd;
      }

-- The file has no second EOCD record: the bytes of one with a comment that ends with the file.
abbrev pub OneEocd : Bytes → Type 0
OneEocd bytes = (o p : ℕ) → IsEocdAt bytes o → IsEocdAt bytes p → o ≡ p

-- The layout of a file with the parts' directory behind a signing block at `start`.
abbrev pub signed_layout : Parts → ℕ → List BlockValue → Bytes → HapLayout
signed_layout parts start blocks block = record {
  eocd_offset = start + length block + length parts.central_directory;
  central_directory_offset = start + length block;
  central_directory_size = length parts.central_directory;
  signing_block = some (written start blocks block);
}

module _ (lib : Libraries) (identity : SigningIdentity lib.SigningKey) (parts : Parts) (start : ℕ)
    (blocks : List BlockValue) (out : Bytes) (split : IsSplit parts start)
    (a : IsAssembled lib identity parts start blocks out) where
  unfoldable pub new_front : Bytes
  new_front = parts.before ++ (a.block ++ parts.central_directory)

  unfoldable pub new_cd : ℕ
  new_cd = start + length a.block

  pub length-new_front : length new_front ≡ new_cd + length parts.central_directory
  unfolding new_front new_cd
  length-new_front = omega (
    arith,
    length-append parts.before (a.block ++ parts.central_directory),
    length-append a.block parts.central_directory,
    split.start_is,
  )

  pub out-new_front : out ≡ new_front ++ patched parts.eocd new_cd
  unfolding new_front new_cd
  out-new_front = a.shape ∙ simp append_assoc

  abbrev all : List BlockValue
  all = with_signer blocks a.cms

  module _ (one : OneEocd out) (size : IsU64 (length out)) (types : WordTypes all) where
    eocd_at : (find_eocd out ≡ some (length new_front)) × (22 ≤ length parts.eocd)
    eocd_at =
        let (here, fits, near) = patch_found split.front new_front parts.eocd new_cd split.found in
        let tail = length-patched parts.eocd new_cd fits in
        let total = length-append new_front (patched parts.eocd new_cd) in
        let whole = out-new_front in
        (
          rw whole (
              (find_eocd_iff (new_front ++ patched parts.eocd new_cd) (length new_front)).1
                (record {
                  here = here;
                  near = omega arith;
                  none_later = λ j p e.
                      let same = one (length new_front) j (rw whole here) (rw whole e) in
                      absurd (omega arith);
                })),
          fits,
        )

    size_read : read_u32 out (length new_front + 12) ≡ ok (length parts.central_directory)
    size_read =
        rw out-new_front
          (read_u32-patched split.front new_front parts.eocd new_cd eocd_at.1 ∙ split.directory)

    cd_read : read_u32 out (length new_front + 16) ≡ ok new_cd
    unfolding new_cd
    cd_read = rw out-new_front (read_u32-patched_word new_front parts.eocd new_cd eocd_at.1 a.word)

    block_read : parse_signing_block out new_cd ≡ ok (some (written start all a.block))
    unfolding new_cd
    block_read =
        let at = split.start_is in
        let found =
          parse-encode_signing_block all a.block parts.before
            (parts.central_directory ++ patched parts.eocd new_cd) types a.encoded
            (omega (arith, a.word)) in
        rw a.shape (
          subst
            (λ s.
              parse_signing_block
                (parts.before
                  ++ (a.block ++ (parts.central_directory ++ patched parts.eocd new_cd)))
                (s + length a.block)
              ≡ ok (some (written s all a.block)))
            at found)

    pub parse_hap-assembled : parse_hap out ≡ ok (signed_layout parts start all a.block)
    unfolding parse_hap new_cd
    parse_hap-assembled =
        let n = length-new_front in
        let total = ap length out-new_front ∙ length-append new_front (patched parts.eocd new_cd) in
        let fits = lt→ltb (new_cd + length parts.central_directory) (2 ^ 64) (omega arith) in
        let ends : (new_cd + length parts.central_directory == length new_front) ≡ true =
          (==_iff _ _).1 (sym n) in
        rw (eocd_at.0, ok_or)
          (rw (size_read, cd_read)
            (rw fits (
              rw ends (
                rw block_read (
                  ap
                    (λ o. ok (record {
                      eocd_offset = o;
                      central_directory_offset = new_cd;
                      central_directory_size = length parts.central_directory;
                      signing_block = some (written start all a.block);
                    }))
                    n)))))
