-- ===== src/Cli.antt =====
-- src/cli.rs: the sign command. The crates are parameters, and the texts of their errors.
pub mod Signed
use hap_resigner.Prelude.{Option, none, some, Result, map_err, Bytes, Text}
use hap_resigner.Effect.{Effect, pure, lift, map_error, ◌>>=◌, ◌>>◌}
use hap_resigner.External.{Libraries, SigningIdentity}
use hap_resigner.SignErrors.{HapSignError}
use hap_resigner.Sign.{sign_hap}
use hap_resigner.Files.{PathBuf, FileSystem, IoError, Io, read, create_dir_all}
use hap_resigner.Materials.{MaterialError, KeyLibraries, load_signing_identity}
use hap_resigner.Materials.Store.{StoreLibraries, parent}

pub data CliError : Type 0 where
  io : IoError → CliError
  material : Text → CliError
  sign : Text → CliError
  selftest : Text → CliError

pub record SignOptions : Type 0 where
  pub input : PathBuf
  pub output : PathBuf
  pub p12 : PathBuf
  pub certificate : PathBuf
  pub profile : PathBuf
  pub password : Text

-- The crates that sign and those that read keys have one type of keys, which each record names.
pub record CliLibraries : Type 1 where
  pub signing : Libraries
  pub keys : KeyLibraries
  pub files : StoreLibraries
  pub signer_key : keys.SigningKey → signing.SigningKey
  pub material_text : MaterialError → Text
  pub sign_text : HapSignError → Text

module _ (lib : CliLibraries) where
  open lib use {signing, keys, files, signer_key, material_text, sign_text}

  abbrev pub create_parent : Option PathBuf → Io (Unit {0})
  create_parent none = pure tt
  create_parent (some above) = create_dir_all above

  unfoldable pub atomic_write : PathBuf → Bytes → Io (Unit {0})
  atomic_write path contents = do
    _ ← create_parent (parent path)
    file ← files.open_atomic path
    written ← files.write_all file contents
    files.commit written

  abbrev pub signer_of : SigningIdentity keys.SigningKey → SigningIdentity signing.SigningKey
  signer_of identity = record {
    alias = identity.alias;
    signing_key = signer_key identity.signing_key;
    certificates = identity.certificates;
  }

  unfoldable pub sign_file : SignOptions → Effect FileSystem CliError (Unit {0})
  sign_file options = do
    input ← map_error io (read options.input)
    p12 ← map_error io (read options.p12)
    certificate ← map_error io (read options.certificate)
    profile ← map_error io (read options.profile)
    identity ← lift (
        map_err (λ e. material (material_text e))
          (load_signing_identity keys p12 options.password certificate))
    output ← lift (
        map_err (λ e. CliError.sign (sign_text e))
          (sign_hap signing input (signer_of identity) profile))
    map_error io (atomic_write options.output output)
