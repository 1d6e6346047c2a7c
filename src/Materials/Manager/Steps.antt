-- ===== src/Materials/Manager/Steps.antt =====
-- src/materials/manager.rs: `prepare_materials_with_api`, phase by phase.
use hap_resigner.Prelude.{
  ok_option, or_else, ◌&&◌, Option, none, some, List, [], ◌∷◌, ◌++◌, ltb, if◌then◌else◌, leb,
  fail_if, ok_or, map_err, is_some, is_none, ◌||◌, length, Bytes, Text, codes,
}
use hap_resigner.Effect.{pure, lift, attempt, on_first, on_second, ◌>>=◌}
use hap_resigner.Files.{PathBuf, read}
use hap_resigner.Files.Names.{file_stem}
use hap_resigner.Agc.{CertificateRecord, certificate_management_url}
use hap_resigner.Materials.{load_signing_identity, validate_p12_private_key}
use hap_resigner.Materials.Profile.{validate_profile, first}
use hap_resigner.Materials.Store.{
  KeyPairFiles, PendingKeyMaterial, MaterialStore, is_empty, p12_path, list_key_pairs,
  list_pending_keys, clear_pending_key, save_profile, save_key_pair, save_pending_key,
}
use hap_resigner.Materials.Manager.{
  invalid_material, certificate_limit, agc_debug_certificate_limit, PrepareRequest,
  ManagerLibraries, Candidate, ValidatedPending, of_team, with_pending, count_debug, is_skipped,
  Managed, Identity, Materials, on_store, on_io, ask_passwords, find_local_materials,
  profile_error_text,
}

module _ (lib : ManagerLibraries) where
  open lib use {
    keys, profiles, files, Outside, list_certificates, upload_csr, register_device,
    create_test_provision, download_object, pending_password_candidates, save_password, generate,
  }

  -- `into_iter().find(|password| validate_p12_private_key(&p12, password).is_ok())`.
  unfoldable pub find_password : Bytes → List Text → Option Text
  find_password p12 [] = none
  find_password p12 (password ∷ passwords) =
      let rest = find_password p12 passwords in
      if is_some (ok_option (validate_p12_private_key keys p12 password))
      then some password
      else rest

  unfoldable pub validate_pending :
      Option PendingKeyMaterial → Managed lib (Option ValidatedPending)
  validate_pending none = pure none
  validate_pending (some pending) = do
    p12 ← on_io lib (read pending.p12)
    passwords ← on_second (pending_password_candidates pending.p12)
    password ← lift (
        ok_or (find_password p12 passwords) (
          invalid_material
            (codes "pending P12 password is unavailable or cannot unlock its private key")))
    pure (some (record { pending = pending; p12 = p12; password = password }))

  abbrev pub candidate_with : PathBuf → Text → Option Bytes → Managed lib (List Candidate)
  candidate_with path identifier none = pure []
  candidate_with path identifier (some p12) = do
    passwords ← ask_passwords lib path
    pure (record { identifier = identifier; path = path; p12 = p12; passwords = passwords } ∷ [])

  abbrev pub candidate_named : PathBuf → Option Text → Managed lib (List Candidate)
  candidate_named path none = pure []
  candidate_named path (some identifier) = do
    p12 ← attempt (on_first (read path))
    candidate_with path identifier (ok_option p12)

  -- The candidates out of the pairs.
  unfoldable pub candidate_loop : List KeyPairFiles → Managed lib (List Candidate)
  candidate_loop [] = pure []
  candidate_loop (pair ∷ pairs) = do
    candidate ← candidate_named pair.p12 (file_stem pair.p12)
    rest ← candidate_loop pairs
    pure (candidate ++ rest)

  -- What the loop over the certificates selects.
  pub record Selected : Type 0 where
    pub identifier : Text
    pub p12 : Bytes
    pub chain : Bytes
    pub password : Text
    pub identity : Identity lib
    pub certificate : CertificateRecord

  pub record Opened : Type 0 where
    pub password : Text
    pub identity : Identity lib

  abbrev pub opened_with : Text → Option (Identity lib) → Option Opened
  opened_with password none = none
  opened_with password (some identity) = some (record { password = password; identity = identity })

  -- The first password that loads the identity.
  unfoldable pub open_with : Bytes → Bytes → List Text → Option Opened
  open_with p12 chain [] = none
  open_with p12 chain (password ∷ passwords) =
      or_else (opened_with password (ok_option (load_signing_identity keys p12 password chain)))
        (open_with p12 chain passwords)

  abbrev pub selected_with : Candidate → Bytes → CertificateRecord → Option Opened → Option Selected
  selected_with c chain certificate none = none
  selected_with c chain certificate (some o) = some (record {
    identifier = c.identifier;
    p12 = c.p12;
    chain = chain;
    password = o.password;
    identity = o.identity;
    certificate = certificate;
  })

  unfoldable pub match_candidates : CertificateRecord → Bytes → List Candidate → Option Selected
  match_candidates certificate chain [] = none
  match_candidates certificate chain (c ∷ cs) =
      or_else (selected_with c chain certificate (open_with c.p12 chain c.passwords))
        (match_candidates certificate chain cs)

  abbrev pub or_next :
      Option Selected → Managed lib (Option Selected) → Managed lib (Option Selected)
  or_next none rest = rest
  or_next (some s) rest = pure (some s)

  unfoldable pub select_loop :
      List Candidate → List CertificateRecord → Managed lib (Option Selected)
  select_loop candidates [] = pure none
  select_loop candidates (certificate ∷ certificates) =
      let rest = select_loop candidates certificates in
      if is_skipped certificate
      then rest
      else if is_empty candidates
      then rest
      else (on_second (download_object certificate.cert_url) >>= λ chain.
          or_next (match_candidates certificate chain candidates) rest)

  -- The key pair, the identity and the certificate that the preparation goes on with.
  pub record Obtained : Type 0 where
    pub pair : KeyPairFiles
    pub password : Text
    pub identity : Identity lib
    pub certificate : CertificateRecord

  -- A pending key, its PKCS#12 file and its password.
  unfoldable pub pending_or_generated :
      MaterialStore → PrepareRequest → Option ValidatedPending → Managed lib ValidatedPending
  pending_or_generated store request (some v) = pure v
  pending_or_generated store request none = do
    generated ← on_second (generate request.team_id request.new_password)
    p12_file ← on_store lib (lift (p12_path store generated.identifier))
    _ ← on_second (save_password p12_file request.new_password)
    pending ←
        on_store lib
          (save_pending_key files store generated request.team_id request.certificate_name)
    pure (record { pending = pending; p12 = generated.p12; password = request.new_password })

  -- Both branches end with a pair on disk and without its pending request.
  unfoldable pub keep_pair :
      MaterialStore → Text → Bytes → Bytes → Opened → CertificateRecord → Managed lib Obtained
  keep_pair store identifier p12 chain o certificate = do
    pair ← on_store lib (save_key_pair files store identifier p12 chain)
    _ ← on_store lib (clear_pending_key store identifier)
    pure (record {
      pair = pair;
      password = o.password;
      identity = o.identity;
      certificate = certificate;
    })

  unfoldable pub obtain :
      MaterialStore
      → PrepareRequest
      → Option ValidatedPending
      → Option Selected
      → Managed lib Obtained
  obtain store request validated (some s) =
      keep_pair store s.identifier s.p12 s.chain
        (record { password = s.password; identity = s.identity }) s.certificate
  obtain store request validated none = do
    v ← pending_or_generated store request validated
    certificate ← on_second (upload_csr v.pending.csr_pem v.pending.certificate_name)
    _ ← lift (
        fail_if (is_none certificate.id || is_empty certificate.cert_url)
          (invalid_material (codes "certificate response has no id or URL")))
    chain ← on_second (download_object certificate.cert_url)
    o ← lift (
        ok_or (open_with v.p12 chain (v.password ∷ [])) (
          invalid_material (codes "downloaded certificate does not match the pending private key")))
    keep_pair store v.pending.identifier v.p12 chain o certificate

  -- The device, the provisioning profile and its checks.
  unfoldable pub provision_with :
      MaterialStore → PrepareRequest → Obtained → Managed lib (Materials lib)
  provision_with store request o = do
    certificate_id ←
        lift (ok_or o.certificate.id (invalid_material (codes "certificate id is missing")))
    device ← on_second (register_device request.udid request.device_type request.device_name)
    device_id ← lift (ok_or device.id (invalid_material (codes "device id is missing")))
    provision ← on_second (
        create_test_provision (certificate_id ∷ []) (device_id ∷ []) request.bundle_name
          request.provision_name)
    profile ← on_second (download_object provision.url)
    path ← on_store lib (save_profile files store request.bundle_name profile)
    signer_certificate ← lift (
        ok_or (first o.identity.certificates)
          (invalid_material (codes "signer certificate is missing")))
    checked ← lift (
        map_err (λ e. invalid_material (profile_error_text e))
          (validate_profile profiles profile request.bundle_name request.udid signer_certificate
            request.now_unix))
    pure (record {
      pair = o.pair;
      profile_path = path;
      profile = profile;
      password = o.password;
      identity = o.identity;
      provision = checked;
    })

  -- Everything behind the search for local materials.
  unfoldable pub prepare_new : MaterialStore → PrepareRequest → Managed lib (Materials lib)
  prepare_new store request = do
    pairs ← on_store lib (list_key_pairs store)
    all_pending ← on_store lib (list_pending_keys files store)
    let pending_keys = of_team request.team_id all_pending
    _ ← lift (
        fail_if (ltb 1 (length pending_keys))
          (invalid_material (codes "multiple pending keys exist for team " ++ request.team_id)))
    validated ← validate_pending (first pending_keys)
    from_pairs ← candidate_loop pairs
    let candidates = with_pending validated from_pairs
    certificates ← on_second list_certificates
    selected ← select_loop candidates certificates
    _ ← lift (
        fail_if (is_none selected && leb agc_debug_certificate_limit (count_debug certificates))
          (certificate_limit (count_debug certificates) certificate_management_url))
    obtained ← obtain store request validated selected
    provision_with store request obtained

  abbrev pub or_prepare :
      Option (Materials lib) → Managed lib (Materials lib) → Managed lib (Materials lib)
  or_prepare none rest = rest
  or_prepare (some m) rest = pure m

  unfoldable pub prepare_materials_with_api :
      MaterialStore → PrepareRequest → Managed lib (Materials lib)
  prepare_materials_with_api store request = do
    found ← find_local_materials lib store request.bundle_name request.udid request.now_unix
    or_prepare found (prepare_new store request)
