-- ===== src/Tests/Manager.antt =====
-- A preparation on an empty disk: a key is made, its request goes to the service, and the profile of
-- the service is kept.
use hap_resigner.Prelude.{◌≡◌, refl, pos, ltℤ, some, [], ok, codes, bytes_eq}
use hap_resigner.Effect.{pure}
use hap_resigner.Files.{
  FileSystem, put, lookup, faulty, read, query, is_file, exists, remove_file, create_dir_all,
  path_eq, delete,
}
use hap_resigner.Materials.{
  load_private_signing_key, mark, mark_chain, position, remove, ders, order_chain,
  load_signing_identity,
}
use hap_resigner.Materials.Profile.{
  any_text, find_attribute, verify_or, names, find_map_certificate, find_signer_certificate,
  message_digest, is_verified, verify_cms_integrity, development_certificate_matches,
  validate_profile,
}
use hap_resigner.Materials.Store.{
  save_pending_key, save_key_pair, save_profile, clear_pending_key, atomic_write, p12_path,
  pending_path, profile_path, validate_identifier, all_identifier_bytes, is_identifier_byte,
  materials_dir, list_key_pairs, list_pending_keys,
}
use hap_resigner.Materials.Store.Paths.{p12_file, cer_file, profile_file}
use hap_resigner.Materials.Store.Invariant.{PendingHasKey}
use hap_resigner.Materials.Manager.{
  ManagerLibraries, PrepareRequest, Materials, find_local_materials, of_team, count_debug,
}
use hap_resigner.Materials.Manager.Usable.{IsUsable}
use hap_resigner.Materials.Manager.Steps.{
  validate_pending, candidate_loop, open_with, select_loop, pending_or_generated, keep_pair, obtain,
  provision_with, prepare_new, prepare_materials_with_api,
}
use hap_resigner.Materials.Manager.Prepared.{
  prepare_materials_with_api-IsUsable, prepare_materials_with_api-PendingHasKey,
}
use hap_resigner.Tests.Materials.{keys, loaded}
use hap_resigner.Tests.Profile.{profile_libraries, debug_profile}
use hap_resigner.Tests.Store.{
  store_libraries, store_libraries-IsAtomic, material_store, key, nothing_pending,
}

abbrev manager_libraries : ManagerLibraries
manager_libraries = record {
  keys = keys;
  profiles = profile_libraries;
  files = store_libraries;
  Outside = Unit {0};
  decimal = λ n. [];
  list_certificates = pure [];
  upload_csr = λ csr name. pure (record {
    id = some (codes "c");
    cert_name = name;
    cert_type = codes "1";
    cert_url = codes "cert";
  });
  register_device =
      λ udid type name. pure (record { id = some (codes "d"); udid = udid; device_name = name });
  create_test_provision = λ certificates devices bundle name.
      pure (record { id = some (codes "v"); url = codes "profile"; name = name });
  download_object = λ url. pure url;
  password_candidates = λ path o. ([], o);
  pending_password_candidates = λ path. pure [];
  save_password = λ path password. pure tt;
  generate = λ team password. pure (key (codes "auto"));
}

abbrev request : PrepareRequest
request = record {
  bundle_name = codes "b";
  udid = codes "u";
  now_unix = pos 15;
  team_id = codes "t";
  new_password = codes "pw";
  device_name = codes "phone";
  device_type = codes "4";
  certificate_name = codes "cert";
  provision_name = codes "prov";
}

abbrev start : FileSystem × (Unit {0})
start = (record { nodes = []; faults = [] }, tt)

abbrev prepared : Materials manager_libraries
prepared = record {
  pair = record {
    p12 = p12_file material_store (codes "auto");
    certificate = cer_file material_store (codes "auto");
  };
  profile_path = profile_file material_store (codes "b");
  profile = codes "profile";
  password = codes "pw";
  identity = loaded;
  provision = debug_profile;
}

abbrev end_of_run : FileSystem × (Unit {0})
end_of_run = (prepare_materials_with_api manager_libraries material_store request start).1

prepare-prepared :
    prepare_materials_with_api manager_libraries material_store request start
    ≡ (ok prepared, end_of_run)
unfolding prepare_materials_with_api find_local_materials prepare_new validate_pending
    candidate_loop open_with select_loop pending_or_generated keep_pair obtain provision_with
    of_team count_debug list_key_pairs list_pending_keys save_pending_key save_key_pair save_profile
    clear_pending_key atomic_write p12_path pending_path profile_path validate_identifier
    all_identifier_bytes is_identifier_byte materials_dir faulty read query is_file exists
    remove_file create_dir_all path_eq put lookup delete bytes_eq load_signing_identity
    load_private_signing_key mark_chain mark order_chain position remove ders validate_profile
    verify_cms_integrity find_signer_certificate find_map_certificate names message_digest
    find_attribute is_verified verify_or development_certificate_matches any_text ltℤ
prepare-prepared = refl

prepare_materials_with_api-IsUsable_example :
    IsUsable manager_libraries material_store
      (codes "b")
      (codes "u")
      (pos 15)
      end_of_run.0.nodes
      prepared
prepare_materials_with_api-IsUsable_example =
    prepare_materials_with_api-IsUsable manager_libraries store_libraries-IsAtomic material_store
      request start end_of_run prepared nothing_pending prepare-prepared

prepare_materials_with_api-PendingHasKey_example :
    PendingHasKey material_store
      (prepare_materials_with_api manager_libraries material_store request start).1.0.nodes
prepare_materials_with_api-PendingHasKey_example =
    prepare_materials_with_api-PendingHasKey manager_libraries store_libraries-IsAtomic
      material_store request start nothing_pending
