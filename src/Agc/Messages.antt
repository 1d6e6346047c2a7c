-- ===== src/Agc/Messages.antt =====
-- src/agc/client.rs: what a reply says.
use hap_resigner.Prelude.{
  ℤ, pos, negsuc, ℕ, Bool, false, not, ◌&&◌, ◌||◌, Option, none, some, List, [], ◌∷◌, ◌++◌,
  if◌then◌else◌, leb, ◌==◌, bytes_eq, and_then, unwrap_or, Result, ok, err, Text, codes, utf8,
  length,
}
use hap_resigner.Strings.{
  to_ascii_lowercase, contains, contains_any, contains_any_ascii_word, all_bytes, is_digit,
  is_blank,
}
use hap_resigner.Agc.{
  AgcError, rejected, certificate_limit, Value, null, boolean, integer, real, string, array, object,
  get, as_str, certificate_management_url,
}

abbrev pub cert_add : Text
cert_add = codes "/api/cps/harmony-cert-manage/v1/cert/add"

-- `response.get("ret").unwrap_or(response)`.
unfoldable pub ret_of : Value → Value
ret_of response = unwrap_or (get response (codes "ret")) response

unfoldable pub response_message : Value → Option Text
response_message response = and_then (get (ret_of response) (codes "msg")) as_str

unfoldable pub is_duplicate_device_message : Text → Bool
is_duplicate_device_message message =
    contains_any (to_ascii_lowercase message)
      (codes "already exist" ∷ (codes "duplicate" ∷ (codes "repeat" ∷ [])))
    || contains_any message (utf8 "已存在" ∷ (utf8 "重复" ∷ []))

unfoldable pub is_duplicate_name_message : Text → Bool
is_duplicate_name_message message =
    (contains (to_ascii_lowercase message) (codes "certificate")
      && contains_any (to_ascii_lowercase message)
          (codes "already exist" ∷ (codes "duplicate" ∷ (codes "same name" ∷ []))))
    || (contains message (utf8 "证书") && contains_any message (utf8 "已存在" ∷ (utf8 "重名" ∷ [])))

abbrev pub quantity_words : List Text
quantity_words = codes "number" ∷ (codes "quantity" ∷ (codes "count" ∷ (codes "quota" ∷ [])))

abbrev pub limit_words : List Text
limit_words =
    codes "limit"
    ∷ (codes "maximum"
        ∷ (codes "upper"
            ∷ (codes "exceed"
                ∷ (codes "exceeds"
                    ∷ (codes "exceeded"
                        ∷ (codes "reach"
                            ∷ (codes "reaches" ∷ (codes "reached" ∷ (codes "full" ∷ [])))))))))

unfoldable pub is_certificate_limit_message : Text → Bool
is_certificate_limit_message message =
    if contains_any (to_ascii_lowercase message) (codes "name" ∷ (codes "length" ∷ []))
      || contains_any message (utf8 "名称" ∷ (utf8 "长度" ∷ []))
    then false
    else (contains_any_ascii_word (to_ascii_lowercase message) quantity_words
        && contains_any_ascii_word (to_ascii_lowercase message) limit_words)
      || (contains_any message (utf8 "数量" ∷ (utf8 "个数" ∷ (utf8 "配额" ∷ [])))
          && contains_any message (utf8 "上限" ∷ (utf8 "最大" ∷ (utf8 "已满" ∷ (utf8 "限制" ∷ [])))))

abbrev pub redacted : Text
redacted = codes "<redacted>"

abbrev pub is_code_byte : ℕ → Bool
is_code_byte byte = is_digit byte || byte == 45

unfoldable pub safe_error_code : (ℤ → Text) → Value → Text
safe_error_code decimal (integer n) = decimal n
safe_error_code decimal (real text) = text
safe_error_code decimal (string value) =
    if leb (length value) 32 && not (is_blank value) && all_bytes is_code_byte value
    then value
    else redacted
safe_error_code decimal null = redacted
safe_error_code decimal (boolean b) = redacted
safe_error_code decimal (array items) = redacted
safe_error_code decimal (object fields) = redacted

-- `code.as_i64() == Some(0) || code.as_str() == Some("0")`.
unfoldable pub is_zero_code : Value → Bool
is_zero_code (integer (pos n)) = n == 0
is_zero_code (integer (negsuc n)) = false
is_zero_code (string text) = bytes_eq text (codes "0")
is_zero_code null = false
is_zero_code (boolean b) = false
is_zero_code (real text) = false
is_zero_code (array items) = false
is_zero_code (object fields) = false

abbrev pub refused : (ℤ → Text) → Text → Value → Value → AgcError
refused decimal endpoint response code =
    if bytes_eq endpoint cert_add
      && is_certificate_limit_message
          (unwrap_or (response_message response) (codes "unknown AGC error"))
    then certificate_limit (codes "certificate quota reached") certificate_management_url
    else rejected (
        endpoint
        ++ codes "; code="
        ++ safe_error_code decimal code
        ++ codes "; remote message: <redacted>")

abbrev pub checked_code : (ℤ → Text) → Text → Value → Option Value → Result AgcError (Unit {0})
checked_code decimal endpoint response none = ok tt
checked_code decimal endpoint response (some code) =
    if is_zero_code code then ok tt else err (refused decimal endpoint response code)

unfoldable pub check_response : (ℤ → Text) → Text → Value → Result AgcError (Unit {0})
check_response decimal endpoint response =
    checked_code decimal endpoint response (get (ret_of response) (codes "code"))
