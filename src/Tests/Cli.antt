-- ===== src/Tests/Cli.antt =====
-- The sign command on a disk with the empty archive.
use hap_resigner.Prelude.{
  ◌≡◌, refl, sym, ◌∙◌, subst, some, ok, [], ◌∷◌, ◌++◌, length, Bytes, IsU64, codes, bytes_eq, arith,
}
use mathlib.Core.Option.{some-injective}
use hap_resigner.Sign.Output.{OneEocd}
use hap_resigner.Files.{
  create_dir_all, Nodes, FileSystem, file, contents, lookup, path_eq, put, faulty, read,
}
use hap_resigner.Materials.{
  KeyLibraries, load_private_signing_key, mark, mark_chain, position, remove, ders, order_chain,
  load_signing_identity,
}
use hap_resigner.Cli.{SignOptions, CliLibraries, atomic_write, sign_file}
use hap_resigner.Cli.Signed.{IsSignedFile, sign_file-IsSignedFile}
use hap_resigner.Tests.Samples.{sample, empty_zip, sample_profile, signed_file}
use hap_resigner.Tests.Hap.{sign_hap-signed_file, signed_file-OneEocd}
use hap_resigner.Tests.Store.{store_libraries, store_libraries-IsAtomic}

-- There is one key, and the certificate file has the certificate of the sample.
abbrev one_key : KeyLibraries
one_key = record {
  KeyStore = Unit {0};
  SigningKey = Unit {0};
  Certificate = Bytes;
  from_pkcs12 = λ b password. ok tt;
  private_key_chain = λ b. some (codes "debugKey", 5 ∷ []);
  from_pkcs8_der = λ b. ok tt;
  to_public_key_der = λ b. ok (5 ∷ []);
  parse_many = λ b. ok (record { tag = codes "CERTIFICATE"; contents = b } ∷ []);
  certificate_from_der = λ b. ok b;
  subject_public_key_der = λ b. ok (5 ∷ []);
}

abbrev cli_libraries : CliLibraries
cli_libraries = record {
  signing = sample;
  keys = one_key;
  files = store_libraries;
  signer_key = λ k. k;
  material_text = λ e. [];
  sign_text = λ e. [];
}

abbrev options : SignOptions
options = record {
  input = codes "in" ∷ [];
  output = codes "out" ∷ [];
  p12 = codes "p12" ∷ [];
  certificate = codes "cer" ∷ [];
  profile = codes "p7b" ∷ [];
  password = [];
}

abbrev disk : Nodes
disk =
    (codes "in" ∷ [], file empty_zip)
    ∷ ((codes "p12" ∷ [], file [])
        ∷ ((codes "cer" ∷ [], file (1 ∷ 2 ∷ 3 ∷ []))
            ∷ ((codes "p7b" ∷ [], file sample_profile) ∷ [])))

abbrev start : FileSystem
start = record { nodes = disk; faults = [] }

abbrev signed_disk : FileSystem
signed_disk = record { nodes = disk ++ ((codes "out" ∷ [], file signed_file) ∷ []); faults = [] }

signs : sign_file cli_libraries options start ≡ (ok tt, signed_disk)
unfolding sign_file read faulty lookup path_eq bytes_eq load_signing_identity
    load_private_signing_key mark_chain mark order_chain position remove ders atomic_write put
    create_dir_all
signs = rw sign_hap-signed_file refl

out_is : contents options.output signed_disk.nodes ≡ some signed_file
unfolding contents lookup path_eq bytes_eq
out_is = refl

bounded :
    (out : Bytes)
    → contents options.output signed_disk.nodes ≡ some out
    → OneEocd out × IsU64 (length out)
bounded out h =
    subst (λ o. OneEocd o × IsU64 (length o)) (some-injective _ _ (sym out_is ∙ h))
      (signed_file-OneEocd, omega arith)

sign_file-IsSignedFile_example : IsSignedFile cli_libraries options disk signed_disk.nodes
sign_file-IsSignedFile_example =
    sign_file-IsSignedFile cli_libraries store_libraries-IsAtomic options start signed_disk signs
      bounded
