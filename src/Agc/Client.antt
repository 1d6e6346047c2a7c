-- ===== src/Agc/Client.antt =====
-- src/agc/client.rs: the decisions that the calls of the client make.
pub mod Calls
pub mod Lookup
pub mod Registered
pub mod Issued
use hap_resigner.Prelude.{
  ℕ, zero, suc, ◌-◌, Bool, true, false, not, ◌&&◌, ◌||◌, Option, none, some, List, [], ◌∷◌, ◌++◌,
  leb, if◌then◌else◌, bytes_eq, Result, ok, err, fail_if, ok_or, map_err, and_then, unwrap_or,
  filter_option, starts_with, drop, length, Bytes, Text, codes, ltb, ◌==◌,
}
use hap_resigner.Effect.{Effect, pure, lift, map_error, attempt, ◌>>=◌, ◌>>◌}
use hap_resigner.Strings.{eq_ignore_ascii_case, is_blank, all_bytes, replace, trim}
use hap_resigner.Agc.{
  DeviceRecord, CertificateRecord, ProvisionRecord, CertificateListResponse, AgcError, rejected,
  device_not_visible, device_udid_ambiguous, certificate_not_visible, certificate_name_ambiguous,
  missing, certificate_limit, http, response, invalid_response, invalid_payload, Value, object,
  end_object, get, as_str, Request, Reply, get_devices, add_device, post_certificates,
  add_certificate, add_provision, renew_urls, Service,
}
use hap_resigner.Agc.Messages.{
  cert_add, response_message, is_duplicate_device_message, is_duplicate_name_message,
  check_response,
}

abbrev pub device_list_path : Text
device_list_path = codes "/api/cps/device-manage/v1/device/list"

abbrev pub device_add_path : Text
device_add_path = codes "/api/cps/device-manage/v1/device/add"

abbrev pub cert_list_path : Text
cert_list_path = codes "/api/cps/harmony-cert-manage/v1/cert/list"

abbrev pub provision_add_test_path : Text
provision_add_test_path = codes "/api/cps/provision-manage/v1/ide/test/provision/add"

abbrev pub download_url_path : Text
download_url_path = codes "/api/amis/app-manage/v1/objects/url/reapply"

abbrev pub certificate_lookup_attempts : ℕ
certificate_lookup_attempts = 5

abbrev pub device_lookup_attempts : ℕ
device_lookup_attempts = certificate_lookup_attempts

abbrev pub is_blank_list {ℓ} : {A : Type ℓ} → List A → Bool
is_blank_list [] = true
is_blank_list (x ∷ xs) = false

abbrev pub has_id : Option Text → Bool
has_id none = false
has_id (some id) = not (is_blank id)

unfoldable pub certificate_record_is_complete : CertificateRecord → Bool
certificate_record_is_complete c = has_id c.id && not (is_blank c.cert_url)

unfoldable pub device_record_is_complete : DeviceRecord → Bool
device_record_is_complete d = has_id d.id

-- The test of the loop of `unique_complete_device`, and what the loop collects.
abbrev pub is_match : Text → DeviceRecord → Bool
is_match udid d = eq_ignore_ascii_case d.udid udid && device_record_is_complete d

unfoldable pub count_matches : Text → List DeviceRecord → ℕ
count_matches udid [] = 0
count_matches udid (d ∷ ds) =
    let rest = count_matches udid ds in if is_match udid d then suc rest else rest

unfoldable pub first_match : Text → List DeviceRecord → Option DeviceRecord
first_match udid [] = none
first_match udid (d ∷ ds) =
    let rest = first_match udid ds in if is_match udid d then some d else rest

unfoldable pub unique_complete_device :
    List DeviceRecord → Text → Result AgcError (Option DeviceRecord)
unique_complete_device devices udid =
    if ltb 1 (count_matches udid devices)
    then err (device_udid_ambiguous (count_matches udid devices))
    else ok (first_match udid devices)

unfoldable pub any_with_udid : Text → List DeviceRecord → Bool
any_with_udid udid [] = false
any_with_udid udid (d ∷ ds) = eq_ignore_ascii_case d.udid udid || any_with_udid udid ds

-- The certificates of this name that are complete.
unfoldable pub matching_certificates : Text → List CertificateRecord → List CertificateRecord
matching_certificates name [] = []
matching_certificates name (c ∷ cs) =
    let rest = matching_certificates name cs in
    if bytes_eq c.cert_name name && certificate_record_is_complete c then c ∷ rest else rest

abbrev pub is_success : ℕ → Bool
is_success status = leb 200 status && leb status 299

abbrev pub byte_order_mark : Bytes
byte_order_mark = 0xEF ∷ (0xBB ∷ (0xBF ∷ []))

-- `body.strip_prefix(b"\xEF\xBB\xBF").unwrap_or(&body)`.
unfoldable pub without_mark : Bytes → Bytes
without_mark body = if starts_with body byte_order_mark then drop 3 body else body

-- `is_ascii_whitespace`: tab, line feed, form feed, carriage return and space.
abbrev pub is_ascii_space : ℕ → Bool
is_ascii_space byte = byte == 9 || byte == 10 || byte == 12 || byte == 13 || byte == 32

abbrev pub is_rejected : AgcError → Bool
is_rejected (rejected text) = true
is_rejected (http text) = false
is_rejected (response endpoint status content_type body) = false
is_rejected (invalid_response endpoint status content_type body source) = false
is_rejected (invalid_payload endpoint body source) = false
is_rejected (device_not_visible attempts summary last_error) = false
is_rejected (device_udid_ambiguous matches) = false
is_rejected (certificate_limit message url) = false
is_rejected (certificate_not_visible name attempts summary last_error) = false
is_rejected (certificate_name_ambiguous name matches) = false
is_rejected (missing what) = false

-- A refusal that says that the record is there already is passed over.
abbrev pub pass_duplicate : Bool → Result AgcError (Unit {0}) → Result AgcError (Unit {0})
pass_duplicate duplicate (ok u) = ok tt
pass_duplicate duplicate (err e) = if duplicate && is_rejected e then ok tt else err e

abbrev pub says : (Text → Bool) → Option Text → Bool
says test none = false
says test (some message) = test message

-- What a request to add a device ends in: its record, or the summary for the search behind it.
pub data Added : Type 0 where
  added : DeviceRecord → Added
  look_up : Text → Added

-- A complete record for this device, with the fields that the reply leaves out.
unfoldable pub direct_or_look_up : Text → Text → DeviceRecord → Added
direct_or_look_up udid device_name direct =
    if device_record_is_complete direct
      && (is_blank direct.udid || eq_ignore_ascii_case direct.udid udid)
    then added (record {
      id = direct.id;
      udid = if is_blank direct.udid then udid else direct.udid;
      device_name = if is_blank direct.device_name then device_name else direct.device_name;
    })
    else look_up (codes "device add response did not contain a complete id")

abbrev pub default_certificate : CertificateRecord
default_certificate = record { id = none; cert_name = []; cert_type = []; cert_url = [] }
