-- ===== src/Tests/Samples.antt =====
-- The inputs of the runs: a small stand-in for the libraries, and an empty archive.
use hap_resigner.Prelude.{
  ℕ, ◌+◌, ◌*◌, ◌%◌, List, [], ◌∷◌, ◌++◌, none, some, length, replicate, ok, Bytes, Text, codes,
}
use hap_resigner.Format.{type_profile, type_property}
use hap_resigner.Block.{BlockValue}
use hap_resigner.External.{Libraries, SigningIdentity}

-- Any function into 32 bytes will do for a digest.
abbrev pub checksum : Bytes → Bytes
checksum b = replicate 32 ((length b * 7 + 3) % 256)

-- A signature is the signed digest behind a mark.
abbrev pub sample : Libraries
sample = record {
  sha256 = checksum;
  SigningKey = Unit {0};
  Certificate = Bytes;
  Any = Bytes;
  SignerIdentifier = Bytes;
  SignerInfoBuilder = Bytes;
  SignedDataBuilder = Bytes;
  certificate_from_der = λ der. ok der;
  octet_string = λ b. ok b;
  utf8_string = λ t. ok t;
  set_insert = λ values v. ok (v ∷ values);
  issuer_and_serial = λ c. c;
  signing_time_attribute = ok (record { oid = []; values = [] });
  signer_info_new = λ key sid oid content digest. ok sid;
  add_signed_attribute = λ builder attribute. ok builder;
  signed_data_new = λ content. elim content.econtent [ none ↦ [] | some bytes ↦ bytes ];
  add_digest_algorithm = λ builder oid. ok builder;
  add_certificate = λ builder c. ok builder;
  add_signer_info = λ builder signer. ok builder;
  build_to_der = λ builder. ok (0x30 ∷ builder);
  ContentInfo = Bytes;
  SignedData = Bytes;
  Value = Text;
  content_info_from_der = λ der. ok der;
  content_to_der = λ c. ok c;
  signed_data_from_der = λ der. ok der;
  econtent_value = λ d. some d;
  json_from_slice = λ b. ok b;
  get_str = λ v key. some (codes "debug");
  pointer_str = λ v key. none;
  FileOptions = ℕ;
  Writer = Bytes;
  with_alignment = λ options alignment. alignment;
  zip_open = λ b. ok (record { comment = []; files = [] });
  writer_new = [];
  set_comment = λ w t. w;
  add_directory = λ w name options. ok w;
  start_file = λ w name options. ok w;
  write_all = λ w b. ok (w ++ b);
  finish = λ w. ok w;
}

abbrev pub signer : SigningIdentity (Unit {0})
signer = record { alias = codes "debugKey"; signing_key = tt; certificates = (1 ∷ 2 ∷ 3 ∷ []) ∷ [] }

-- `empty_zip` of src/cli.rs: an EOCD record alone.
abbrev pub empty_zip : Bytes
empty_zip = codes "PK" ++ (5 ∷ 6 ∷ replicate 16 0 ++ (0 ∷ 0 ∷ []))

abbrev pub sample_profile : Bytes
sample_profile = codes "profile"

-- What `sign_hap` makes of the empty archive.
abbrev pub signed_file : Bytes
signed_file =
    (2 ∷ 0 ∷ 0 ∷ 32 ∷ 7 ∷ 0 ∷ 0 ∷ 0 ∷ 24 ∷ 0 ∷ 0 ∷ 0 ∷ [])
    ++ ((0 ∷ 0 ∷ 0 ∷ 32 ∷ 53 ∷ 0 ∷ 0 ∷ 0 ∷ 31 ∷ 0 ∷ 0 ∷ 0 ∷ [])
        ++ (codes "profile"
            ++ ((48 ∷ 2 ∷ 0 ∷ 0 ∷ 0 ∷ 1 ∷ 0 ∷ 0 ∷ 0 ∷ 40 ∷ 0 ∷ 0 ∷ 0 ∷ 1 ∷ 2 ∷ 0 ∷ 0 ∷ 32 ∷ 0 ∷ 0
                  ∷ 0 ∷ [])
                ++ (replicate 32 55
                    ++ ((2 ∷ 0 ∷ 0 ∷ 0 ∷ 116 ∷ 0 ∷ 0 ∷ 0 ∷ 0 ∷ 0 ∷ 0 ∷ 0 ∷ [])
                        ++ (codes "<hap sign block>"
                            ++ ((3 ∷ 0 ∷ 0 ∷ 0 ∷ [])
                                ++ (codes "PK"
                                    ++ ((5 ∷ 6 ∷ replicate 12 0)
                                        ++ (116 ∷ 0 ∷ 0 ∷ 0 ∷ 0 ∷ 0 ∷ []))))))))))

abbrev pub sample_blocks : List BlockValue
sample_blocks =
    record { block_type = type_property; value = 1 ∷ 2 ∷ [] }
    ∷ (record { block_type = type_profile; value = 3 ∷ [] } ∷ [])

abbrev pub sample_block : Bytes
sample_block =
    (3 ∷ 0 ∷ 0 ∷ 32 ∷ 2 ∷ 0 ∷ 0 ∷ 0 ∷ 24 ∷ 0 ∷ 0 ∷ 0 ∷ [])
    ++ ((2 ∷ 0 ∷ 0 ∷ 32 ∷ 1 ∷ 0 ∷ 0 ∷ 0 ∷ 26 ∷ 0 ∷ 0 ∷ 0 ∷ [])
        ++ ((1 ∷ 2 ∷ 3 ∷ [])
            ++ ((2 ∷ 0 ∷ 0 ∷ 0 ∷ 59 ∷ 0 ∷ 0 ∷ 0 ∷ 0 ∷ 0 ∷ 0 ∷ 0 ∷ [])
                ++ (codes "<hap sign block>" ++ (3 ∷ 0 ∷ 0 ∷ 0 ∷ [])))))
