-- ===== src/Cli/Signed.antt =====
-- What the sign command leaves on the disk.
use hap_resigner.Prelude.{
  ◌≡◌, refl, sym, ap, subst, ◌∙◌, some, ok, [], ◌++◌, map_err, map_err-eq-ok, length, Bytes, IsU64,
}
use hap_resigner.Effect.{
  Triple, Always, map_error, bind-Triple, lift-Triple, fact-Triple, weaken-Triple, map_error-Triple,
  any-Triple, Triple-ok,
}
use hap_resigner.External.{SigningIdentity}
use hap_resigner.Sign.{sign_hap}
use hap_resigner.Sign.Output.{OneEocd}
use hap_resigner.Sign.Signed.{IsSigned, sign_hap-IsSigned}
use hap_resigner.Files.{PathBuf, Nodes, FileSystem, file, contents, put, read}
use hap_resigner.Files.Calls.{At, read-Triple}
use hap_resigner.Files.Lookup.{contents-put_same}
use hap_resigner.Materials.{load_signing_identity}
use hap_resigner.Materials.Identity.{IsIdentity, load_signing_identity-IsIdentity}
use hap_resigner.Materials.Store.{parent}
use hap_resigner.Materials.Store.Atomic.{IsAtomic, from_each_state}
use hap_resigner.Cli.{
  io, SignOptions, CliLibraries, create_parent, atomic_write, signer_of, sign_file,
}

-- The files that the command read, and what it wrote out of them.
pub record IsWritten (lib : CliLibraries) (options : SignOptions) (before after : Nodes)
    : Type 0 where
  pub input : Bytes
  pub certificate : Bytes
  pub profile : Bytes
  pub out : Bytes
  pub identity : SigningIdentity lib.keys.SigningKey
  pub input_read : contents options.input before ≡ some input
  pub certificate_read : contents options.certificate before ≡ some certificate
  pub profile_read : contents options.profile before ≡ some profile
  pub is_identity : IsIdentity lib.keys certificate identity
  pub made : sign_hap lib.signing input (signer_of lib identity) profile ≡ ok out
  pub written : contents options.output after ≡ some out

-- The output is a signed file with the profile and the identity that were read.
pub record IsSignedFile (lib : CliLibraries) (options : SignOptions) (before after : Nodes)
    : Type 0 where
  pub certificate : Bytes
  pub profile : Bytes
  pub out : Bytes
  pub identity : SigningIdentity lib.keys.SigningKey
  pub certificate_read : contents options.certificate before ≡ some certificate
  pub profile_read : contents options.profile before ≡ some profile
  pub is_identity : IsIdentity lib.keys certificate identity
  pub written : contents options.output after ≡ some out
  pub signed : IsSigned lib.signing (signer_of lib identity) profile out

module _ (lib : CliLibraries) (atomic : IsAtomic lib.files) where
  atomic_write-written :
      (path : PathBuf) (b : Bytes)
      → Triple Always
          (atomic_write lib path b)
          (λ _ (fs : FileSystem). contents path fs.nodes ≡ some b)
          Always
  unfolding atomic_write
  atomic_write-written path b = bind-Triple (any-Triple (create_parent lib (parent path))) (λ _.
      bind-Triple
        (from_each_state (λ n. Unit {0})
          (λ f before after. (after ≡ before) × (atomic.target f ≡ path) × (atomic.text f ≡ []))
          (lib.files.open_atomic path) (atomic.opened path)
          (λ f n. (atomic.target f ≡ path) × (atomic.text f ≡ []))
          (λ f before after p q. (q.1, q.2)))
        (λ f.
          bind-Triple
            (weaken-Triple
              (from_each_state (λ n. (atomic.target f ≡ path) × (atomic.text f ≡ []))
                (λ g before after.
                  (after ≡ before)
                  × (atomic.target g ≡ atomic.target f)
                  × (atomic.text g ≡ atomic.text f ++ b))
                (lib.files.write_all f b) (atomic.wrote f b)
                (λ g n. (atomic.target g ≡ path) × (atomic.text g ≡ b))
                (λ g before after p q. (q.1 ∙ p.0, q.2 ∙ ap (λ t. t ++ b) p.1)))
              (λ w p. p) (λ a w p. p) (λ w p. tt))
            (λ g.
              weaken-Triple
                (from_each_state (λ n. (atomic.target g ≡ path) × (atomic.text g ≡ b))
                  (λ _ before after. after ≡ put (atomic.target g) (file (atomic.text g)) before)
                  (lib.files.commit g) (atomic.committed g) (λ _ n. contents path n ≡ some b)
                  (λ _ before after p q.
                    subst (λ n. contents path n ≡ some b)
                      (sym (
                        q
                        ∙ ap (λ t. put t (file (atomic.text g)) before) p.0
                        ∙ ap (λ t. put path (file t) before) p.1))
                      (contents-put_same path b before)))
                (λ w p. p) (λ a w p. p) (λ w p. tt))))

  -- A read of the files as they are.
  read_known :
      (before : Nodes) (path : PathBuf)
      → Triple
          (At (λ n. n ≡ before))
          (map_error io (read path))
          (λ b fs. (fs.nodes ≡ before) × (contents path before ≡ some b))
          Always
  read_known before path =
      weaken-Triple (map_error-Triple io (read-Triple (λ n. n ≡ before) path)) (λ w p. p)
        (λ b w p. (p.0, subst (λ n. contents path n ≡ some b) p.0 p.1)) (λ w p. tt)

  sign_file-IsWritten :
      (options : SignOptions) (before : Nodes)
      → Triple
          (At (λ n. n ≡ before))
          (sign_file lib options)
          (λ _ fs. IsWritten lib options before fs.nodes)
          Always
  unfolding sign_file
  sign_file-IsWritten options before = bind-Triple (read_known before options.input) (λ input.
      fact-Triple (λ input_read. bind-Triple (read_known before options.p12) (λ p12.
        fact-Triple (λ _. bind-Triple (read_known before options.certificate) (λ certificate.
          fact-Triple (λ certificate_read.
            bind-Triple (read_known before options.profile) (λ profile. fact-Triple (λ profile_read.
              weaken-Triple
                (bind-Triple
                  (lift-Triple {P = Always}
                    (map_err _ (load_signing_identity lib.keys p12 options.password certificate)))
                  (λ identity. fact-Triple (λ loaded.
                    bind-Triple
                      (lift-Triple {P = Always}
                        (map_err _ (sign_hap lib.signing input (signer_of lib identity) profile)))
                      (λ out. fact-Triple (λ made.
                        weaken-Triple
                          (map_error-Triple io (atomic_write-written options.output out)) (λ w p. p)
                          (λ _ w written. record {
                            input = input;
                            certificate = certificate;
                            profile = profile;
                            out = out;
                            identity = identity;
                            input_read = input_read;
                            certificate_read = certificate_read;
                            profile_read = profile_read;
                            is_identity =
                                load_signing_identity-IsIdentity lib.keys p12 options.password
                                  certificate (map_err-eq-ok _ _ loaded);
                            made = map_err-eq-ok _ _ made;
                            written = written;
                          })
                          (λ w p. p))))))
                (λ w p. tt) (λ a w p. p) (λ w p. p)))))))))

-- When the sign command returns without an error, its output is a file with a version 3 signing block
-- in which the profile block is the profile file, signed by the identity of the certificate file. The
-- condition: an output is below 2 ^ 64 bytes and has only one EOCD record.
pub sign_file-IsSignedFile :
    (lib : CliLibraries) (atomic : IsAtomic lib.files) (options : SignOptions)
    (fs after : FileSystem)
    → sign_file lib options fs ≡ (ok tt, after)
    → ((out : Bytes)
        → contents options.output after.nodes ≡ some out
        → OneEocd out × IsU64 (length out))
    → IsSignedFile lib options fs.nodes after.nodes
sign_file-IsSignedFile lib atomic options fs after e bounded =
    let w = Triple-ok (sign_file-IsWritten lib atomic options fs.nodes) fs refl tt after e in
    let (one, size) = bounded w.out w.written in
    record {
      certificate = w.certificate;
      profile = w.profile;
      out = w.out;
      identity = w.identity;
      certificate_read = w.certificate_read;
      profile_read = w.profile_read;
      is_identity = w.is_identity;
      written = w.written;
      signed =
          sign_hap-IsSigned lib.signing w.input (signer_of lib w.identity) w.profile w.made one
            size;
    }
