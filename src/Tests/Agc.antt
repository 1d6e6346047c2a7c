-- ===== src/Tests/Agc.antt =====
-- A service that numbers its replies: it lists nothing, takes a device without telling its id, and
-- then lists it.
use hap_resigner.Prelude.{
  ℕ, zero, suc, pos, ◌≡◌, refl, none, some, List, [], ◌∷◌, Result, ok, Bytes, Text, codes, bytes_eq,
  starts_with,
}
use hap_resigner.Strings.{
  eq_ignore_ascii_case, to_ascii_lowercase, lower, all_bytes, trim, trim_start_from, trim_end,
  space_at,
}
use hap_resigner.Agc.{DeviceRecord, CertificateRecord, Value, null, integer, Service}
use hap_resigner.Agc.Messages.{check_response, ret_of, response_message}
use hap_resigner.Agc.Client.{
  certificate_record_is_complete, device_record_is_complete, count_matches, first_match,
  unique_complete_device, any_with_udid, matching_certificates, without_mark, direct_or_look_up,
}
use hap_resigner.Agc.Client.Calls.{
  send_json_value, decode_value, list_devices, add_if_missing, device_lookup, register_device,
  list_certificates, certificate_lookup, upload_csr,
}
use hap_resigner.Agc.Client.Lookup.{IsOnlyMatch, unique_complete_device_iff}
use hap_resigner.Agc.Client.Registered.{IsRegistered, register_device-IsRegistered}
use hap_resigner.Agc.Client.Issued.{IsIssued, upload_csr-IsIssued}

abbrev phone : DeviceRecord
phone = record { id = some (codes "7"); udid = codes "AB"; device_name = codes "phone" }

abbrev unnamed : DeviceRecord
unnamed = record { id = none; udid = codes "AB"; device_name = [] }

abbrev issued : CertificateRecord
issued = record {
  id = some (codes "3");
  cert_name = codes "mine";
  cert_type = codes "1";
  cert_url = codes "url";
}

abbrev listed : ℕ → List DeviceRecord
listed zero = []
listed (suc n) = unnamed ∷ (phone ∷ [])

abbrev numbered : Bytes → Value
numbered [] = null
numbered (n ∷ b) = integer (pos n)

abbrev devices_in : Value → Result Text (List DeviceRecord)
devices_in (integer (pos n)) = ok (listed n)
devices_in value = ok []

abbrev numbering : Service
numbering = record {
  State = ℕ;
  send = λ request n. (ok (record { status = 200; content_type = none; body = n ∷ [] }), suc n);
  fetch = λ url n. (ok [], n);
  json_from_slice = λ b. ok (numbered b);
  device_list = devices_in;
  device = λ value. ok (record { id = none; udid = []; device_name = [] });
  certificate_list = λ value. ok (record { cert_list = []; list = issued ∷ [] });
  certificate = λ value. ok (record { id = none; cert_name = []; cert_type = []; cert_url = [] });
  urls_info = λ value. ok [];
  decimal = λ n. [];
  response_preview = λ b. [];
  response_value_preview = λ value. [];
  display = λ e. [];
}

registers : register_device numbering (codes "ab") (codes "4") (codes "phone") 0 ≡ (ok phone, 3)
unfolding register_device list_devices send_json_value decode_value add_if_missing device_lookup
    check_response ret_of response_message unique_complete_device count_matches first_match
    any_with_udid device_record_is_complete direct_or_look_up without_mark starts_with all_bytes
    eq_ignore_ascii_case to_ascii_lowercase lower bytes_eq
registers = refl

register_device-IsRegistered_example : IsRegistered (codes "ab") phone
register_device-IsRegistered_example =
    register_device-IsRegistered numbering (codes "ab") (codes "4") (codes "phone") 0 3 phone
      registers

issues : upload_csr numbering (codes "csr") (codes "mine") 0 ≡ (ok issued, 2)
unfolding upload_csr list_certificates send_json_value decode_value certificate_lookup
    check_response ret_of response_message matching_certificates certificate_record_is_complete
    without_mark starts_with all_bytes bytes_eq trim trim_start_from trim_end space_at
issues = refl

upload_csr-IsIssued_example : IsIssued issued
upload_csr-IsIssued_example =
    upload_csr-IsIssued numbering (codes "csr") (codes "mine") 0 2 issued issues

only-phone : unique_complete_device (unnamed ∷ (phone ∷ [])) (codes "ab") ≡ ok (some phone)
unfolding unique_complete_device count_matches first_match device_record_is_complete
    eq_ignore_ascii_case to_ascii_lowercase lower bytes_eq
only-phone = refl

unique_complete_device_iff_example : IsOnlyMatch (codes "ab") (unnamed ∷ (phone ∷ [])) phone
unique_complete_device_iff_example =
    (unique_complete_device_iff (unnamed ∷ (phone ∷ [])) (codes "ab") phone).0 only-phone
