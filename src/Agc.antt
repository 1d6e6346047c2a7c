-- ===== src/Agc.antt =====
-- src/agc/client.rs: the records of the AGC service, its errors, and the JSON of its replies.
pub mod Json
pub mod Messages
pub mod Client
pub mod Auth
pub mod Http
use hap_resigner.Prelude.{
  ℕ, ℤ, Bool, true, false, Option, none, some, List, [], ◌∷◌, if◌then◌else◌, bytes_eq, Result,
  Bytes, Text, codes,
}
use hap_resigner.Effect.{Effect}

pub record DeviceRecord : Type 0 where
  pub id : Option Text
  pub udid : Text
  pub device_name : Text

pub record CertificateRecord : Type 0 where
  pub id : Option Text
  pub cert_name : Text
  pub cert_type : Text
  pub cert_url : Text

pub record ProvisionRecord : Type 0 where
  pub id : Option Text
  pub url : Text
  pub name : Text

pub record CertificateListResponse : Type 0 where
  pub cert_list : List CertificateRecord
  pub list : List CertificateRecord

abbrev pub certificate_management_url : Text
certificate_management_url =
    codes "https://developer.huawei.com/consumer/cn/service/josp/agc/index.html"

pub data AgcError : Type 0 where
  http : Text → AgcError
  response : Text → ℕ → Text → Text → AgcError
  invalid_response : Text → ℕ → Text → Text → Text → AgcError
  invalid_payload : Text → Text → Text → AgcError
  rejected : Text → AgcError
  device_not_visible : ℕ → Text → Text → AgcError
  device_udid_ambiguous : ℕ → AgcError
  certificate_limit : Text → Text → AgcError
  certificate_not_visible : Text → ℕ → Text → Text → AgcError
  certificate_name_ambiguous : Text → ℕ → AgcError
  missing : Text → AgcError

-- `serde_json::Value`: a number is an integer of 64 bits or another one with its text. The items of an
-- array and the fields of an object are lists.
mutual
  pub data Value : Type 0 where
    null : Value
    boolean : Bool → Value
    integer : ℤ → Value
    real : Text → Value
    string : Text → Value
    array : Values → Value
    object : Fields → Value

  pub data Values : Type 0 where
    end_array : Values
    item : Value → Values → Values

  pub data Fields : Type 0 where
    end_object : Fields
    field : Text → Value → Fields → Fields

unfoldable pub get_field : Text → Fields → Option Value
get_field key end_object = none
get_field key (field name value fields) =
    let rest = get_field key fields in if bytes_eq name key then some value else rest

-- `value.get(key)` and `value.as_str()`.
abbrev pub get : Value → Text → Option Value
get (object fields) key = get_field key fields
get null key = none
get (boolean b) key = none
get (integer n) key = none
get (real text) key = none
get (string text) key = none
get (array items) key = none

abbrev pub as_str : Value → Option Text
as_str (string text) = some text
as_str null = none
as_str (boolean b) = none
as_str (integer n) = none
as_str (real text) = none
as_str (array items) = none
as_str (object fields) = none

-- What the client asks for: a method, a path and the JSON of the body, here with its fields.
pub data Request : Type 0 where
  get_devices : Request
  add_device : Text → Text → Text → Request
  post_certificates : Request
  add_certificate : Text → Text → Request
  add_provision : List Text → List Text → Text → Text → Request
  renew_urls : Text → Request

-- The reply, if the transport gives one: its status, its content type and its body.
pub record Reply : Type 0 where
  pub status : ℕ
  pub content_type : Option Text
  pub body : Bytes

-- The HTTP client and serde_json, over a state of the service. `fetch` is a GET whose status is checked.
-- The previews are those of `response_preview`, `response_value_preview` and `Display`.
pub record Service : Type 1 where
  pub State : Type 0
  pub send : Request → Effect State Text Reply
  pub fetch : Text → Effect State Text Bytes
  pub json_from_slice : Bytes → Result Text Value
  pub device_list : Value → Result Text (List DeviceRecord)
  pub device : Value → Result Text DeviceRecord
  pub certificate_list : Value → Result Text CertificateListResponse
  pub certificate : Value → Result Text CertificateRecord
  pub urls_info : Value → Result Text (List Text)
  pub decimal : ℤ → Text
  pub response_preview : Bytes → Text
  pub response_value_preview : Value → Text
  pub display : AgcError → Text
