-- ===== src/Agc/Client/Calls.antt =====
-- src/agc/client.rs: the calls of the client. A sleep between two attempts does nothing else.
use hap_resigner.Prelude.{
  ℕ, zero, suc, Bool, true, false, not, ◌&&◌, Option, none, some, List, [], ◌∷◌, if◌then◌else◌,
  Result, ok, err, fail_if, ok_or, map_err, and_then, unwrap_or, filter_option, length, Bytes, Text,
  codes,
}
use hap_resigner.Effect.{Effect, pure, lift, map_error, attempt, ◌>>=◌}
use hap_resigner.Strings.{is_blank, all_bytes, replace, trim}
use hap_resigner.Agc.{
  DeviceRecord, CertificateRecord, ProvisionRecord, AgcError, device_not_visible,
  certificate_not_visible, certificate_name_ambiguous, missing, http, response, invalid_response,
  invalid_payload, Value, object, end_object, get, as_str, Request, get_devices, add_device,
  post_certificates, add_certificate, add_provision, renew_urls, Service,
}
use hap_resigner.Agc.Messages.{
  cert_add, response_message, is_duplicate_device_message, is_duplicate_name_message,
  check_response,
}
use hap_resigner.Agc.Client.{
  device_list_path, device_add_path, cert_list_path, provision_add_test_path, download_url_path,
  certificate_lookup_attempts, device_lookup_attempts, is_blank_list,
  certificate_record_is_complete, unique_complete_device, any_with_udid, matching_certificates,
  is_success, without_mark, is_ascii_space, pass_duplicate, says, Added, added, look_up,
  direct_or_look_up, default_certificate,
}

module _ (service : Service) where
  open service use {
    State, send, fetch, json_from_slice, device_list, device, certificate_list, certificate,
    urls_info, decimal, response_preview, response_value_preview, display,
  }

  abbrev pub Call : Type 0 → Type 0
  Call A = Effect State AgcError A

  unfoldable pub send_json_value : Request → Text → Bool → Call Value
  send_json_value request endpoint allow_empty = do
    reply ← map_error http (send request)
    let body = without_mark reply.body
    let content_type = unwrap_or reply.content_type (codes "<missing>")
    _ ← lift (
        fail_if (not (is_success reply.status))
          (response endpoint reply.status content_type (response_preview body)))
    if allow_empty && all_bytes is_ascii_space body
        then pure (object end_object)
        else lift (
            map_err (invalid_response endpoint reply.status content_type (response_preview body))
              (json_from_slice body))

  unfoldable pub decode_value :
      {A : Type 0} → (Value → Result Text A) → Text → Value → Result AgcError A
  decode_value decode endpoint value =
      map_err (invalid_payload endpoint (response_value_preview value)) (decode value)

  unfoldable pub list_devices : Call (List DeviceRecord)
  list_devices = do
    value ← send_json_value get_devices device_list_path true
    _ ← lift (check_response decimal device_list_path value)
    lift (decode_value device_list device_list_path value)

  abbrev pub add_reply : Text → Text → Bool → Value → Call Added
  add_reply udid device_name true value =
      pure (look_up (codes "device add response did not contain a complete id"))
  add_reply udid device_name false value = do
    direct ← lift (decode_value device device_add_path value)
    pure (direct_or_look_up udid device_name direct)

  -- The request is sent only if no record has this UDID yet.
  unfoldable pub add_if_missing : Text → Text → Text → Bool → Call Added
  add_if_missing udid device_type device_name true =
      pure (look_up (codes "existing device record remained incomplete"))
  add_if_missing udid device_type device_name false = do
    value ← send_json_value (add_device device_name udid device_type) device_add_path false
    let duplicate = says is_duplicate_device_message (response_message value)
    _ ← lift (pass_duplicate duplicate (check_response decimal device_add_path value))
    add_reply udid device_name duplicate value

  abbrev pub device_or : Option DeviceRecord → Call DeviceRecord → Call DeviceRecord
  device_or none rest = rest
  device_or (some d) rest = pure d

  -- One attempt; `rest` goes on with the last error.
  abbrev pub device_turn :
      Text
      → Text
      → (Text → Call DeviceRecord)
      → Result AgcError (List DeviceRecord)
      → Call DeviceRecord
  device_turn udid last_error rest (err e) = rest (replace (display e) udid (codes "<redacted>"))
  device_turn udid last_error rest (ok devices) =
      lift (unique_complete_device devices udid) >>= λ found. device_or found (rest last_error)

  unfoldable pub device_lookup : Text → Text → ℕ → Text → Call DeviceRecord
  device_lookup udid summary zero last_error =
      lift (err (device_not_visible device_lookup_attempts summary last_error))
  device_lookup udid summary (suc attempts) last_error = attempt list_devices >>= λ devices.
      device_turn udid last_error (device_lookup udid summary attempts) devices

  abbrev pub device_of : Text → Added → Call DeviceRecord
  device_of udid (added d) = pure d
  device_of udid (look_up summary) =
      device_lookup udid summary device_lookup_attempts (codes "none")

  unfoldable pub register_device : Text → Text → Text → Call DeviceRecord
  register_device udid device_type device_name = do
    initial_devices ← list_devices
    found ← lift (unique_complete_device initial_devices udid)
    device_or found (
        add_if_missing udid device_type device_name (any_with_udid udid initial_devices)
        >>= device_of udid)

  unfoldable pub list_certificates : Call (List CertificateRecord)
  list_certificates = do
    value ← send_json_value post_certificates cert_list_path true
    _ ← lift (check_response decimal cert_list_path value)
    found ← lift (decode_value certificate_list cert_list_path value)
    pure (if is_blank_list found.cert_list then found.list else found.cert_list)

  abbrev pub certificate_turn :
      Text
      → Text
      → (Text → Call CertificateRecord)
      → List CertificateRecord
      → Call CertificateRecord
  certificate_turn name last_error rest [] = rest last_error
  certificate_turn name last_error rest (c ∷ []) = pure c
  certificate_turn name last_error rest (c ∷ (d ∷ cs)) =
      lift (err (certificate_name_ambiguous name (length (c ∷ (d ∷ cs)))))

  abbrev pub certificate_attempt :
      Text
      → Text
      → (Text → Call CertificateRecord)
      → Result AgcError (List CertificateRecord)
      → Call CertificateRecord
  certificate_attempt name last_error rest (err e) = rest (display e)
  certificate_attempt name last_error rest (ok certificates) =
      certificate_turn name last_error rest (matching_certificates name certificates)

  unfoldable pub certificate_lookup : Text → Text → ℕ → Text → Call CertificateRecord
  certificate_lookup name summary zero last_error =
      lift (err (certificate_not_visible name certificate_lookup_attempts summary last_error))
  certificate_lookup name summary (suc attempts) last_error =
      attempt list_certificates >>= λ certificates.
      certificate_attempt name last_error (certificate_lookup name summary attempts) certificates

  abbrev pub direct_certificate : Bool → Value → Result AgcError CertificateRecord
  direct_certificate true value = ok default_certificate
  direct_certificate false value = decode_value certificate cert_add value

  unfoldable pub upload_csr : Text → Text → Call CertificateRecord
  upload_csr csr_pem certificate_name = do
    value ← send_json_value (add_certificate (trim csr_pem) certificate_name) cert_add false
    let summary = response_value_preview value
    let duplicate_name = says is_duplicate_name_message (response_message value)
    _ ← lift (pass_duplicate duplicate_name (check_response decimal cert_add value))
    direct ← lift (direct_certificate duplicate_name value)
    if certificate_record_is_complete direct
        then pure direct
        else certificate_lookup certificate_name summary certificate_lookup_attempts (codes "none")

  abbrev pub is_filled : Text → Bool
  is_filled text = not (is_blank text)

  unfoldable pub create_test_provision : List Text → List Text → Text → Text → Call ProvisionRecord
  create_test_provision certificate_ids device_ids bundle_name provision_name = do
    value ←
        send_json_value (add_provision certificate_ids device_ids bundle_name provision_name)
          provision_add_test_path false
    _ ← lift (check_response decimal provision_add_test_path value)
    url ← lift (
        ok_or (filter_option is_filled (and_then (get value (codes "provisionFileUrl")) as_str))
          (missing (codes "provisionFileUrl")))
    pure
        (record { id = and_then (get value (codes "id")) as_str; url = url; name = provision_name })

  abbrev pub first_of : List Text → Option Text
  first_of [] = none
  first_of (url ∷ urls) = some url

  unfoldable pub download_object : Text → Call Bytes
  download_object source_url = do
    value ← send_json_value (renew_urls source_url) download_url_path false
    _ ← lift (check_response decimal download_url_path value)
    urls ← lift (decode_value urls_info download_url_path value)
    url ←
        lift
          (ok_or (filter_option is_filled (first_of urls)) (missing (codes "urlsInfo[0].newUrl")))
    map_error http (fetch url)
