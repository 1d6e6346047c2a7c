-- ===== src/Materials/Remote.antt =====
-- `impl MaterialApi for AgcClient` of src/materials/manager.rs: the client's calls, whose errors become
-- texts. The state of the service stands beside that of the closures.
use hap_resigner.Prelude.{List, Text}
use hap_resigner.Effect.{Effect, map_error, on_first, on_second}
use hap_resigner.Agc.{AgcError, Service}
use hap_resigner.Agc.Client.Calls
use hap_resigner.Materials.Manager.{ManagerError, remote, ManagerLibraries}

module _ (lib : ManagerLibraries) (service : Service) where
  abbrev pub Both : Type 0
  Both = service.State × lib.Outside

  abbrev pub remote_call :
      {A : Type 0} → Effect service.State AgcError A → Effect Both ManagerError A
  remote_call call = on_first (map_error (λ e. remote (service.display e)) call)

  abbrev pub candidates_of : List Text × lib.Outside → service.State → List Text × Both
  candidates_of found state = (found.0, (state, found.1))

  unfoldable pub with_client : ManagerLibraries
  with_client = record {
    keys = lib.keys;
    profiles = lib.profiles;
    files = lib.files;
    Outside = Both;
    decimal = lib.decimal;
    list_certificates = remote_call (Calls.list_certificates service);
    upload_csr = λ csr_pem name. remote_call (Calls.upload_csr service csr_pem name);
    register_device = λ udid kind name. remote_call (Calls.register_device service udid kind name);
    create_test_provision = λ certificates devices bundle name.
        remote_call (Calls.create_test_provision service certificates devices bundle name);
    download_object = λ url. remote_call (Calls.download_object service url);
    password_candidates = λ path w. candidates_of (lib.password_candidates path w.1) w.0;
    pending_password_candidates = λ path. on_second (lib.pending_password_candidates path);
    save_password = λ path password. on_second (lib.save_password path password);
    generate = λ alias name. on_second (lib.generate alias name);
  }
