-- ===== src/CodeSign/Owner.antt =====
-- `code_sign_owner_id` of code_sign.rs: the owner that a provisioning profile names.
use hap_resigner.Prelude.{
  not, Option, none, some, [], ◌++◌, if◌then◌else◌, bytes_eq, Result, ok, err, ◌>>=◌, ok_or,
  map_err, filter_option, Bytes, Text, codes,
}
use hap_resigner.SignErrors.{CodeSignError}
use hap_resigner.External.{Libraries}

abbrev pub debug_owner_id : Text
debug_owner_id = codes "DEBUG_LIB_ID"

module _ (lib : Libraries) where
  open lib use {
    Value, content_info_from_der, content_to_der, signed_data_from_der, econtent_value,
    json_from_slice, get_str, pointer_str,
  }

  -- The JSON value inside the profile's CMS.
  unfoldable pub profile_value : Bytes → Result CodeSignError Value
  profile_value profile = do
    content_info ← map_err CodeSignError.profile (content_info_from_der profile)
    signed_data_der ← map_err CodeSignError.profile (content_to_der content_info)
    signed_data ← map_err CodeSignError.profile (signed_data_from_der signed_data_der)
    content ←
        ok_or (econtent_value signed_data)
          (CodeSignError.profile (codes "profile content is missing"))
    map_err CodeSignError.profile (json_from_slice content)

  -- The arms of the `match` on the profile's type.
  unfoldable pub owner_of_type : Value → Option Text → Result CodeSignError Text
  owner_of_type value none = err (CodeSignError.profile (codes "profile type is missing"))
  owner_of_type value (some profile_type) =
      if bytes_eq profile_type (codes "debug")
      then ok debug_owner_id
      else if bytes_eq profile_type (codes "release")
      then ok_or
          (filter_option (λ owner. not (bytes_eq owner []))
            (pointer_str value (codes "/bundle-info/app-identifier")))
          (CodeSignError.profile (codes "app-identifier is missing"))
      else err (CodeSignError.profile (codes "unsupported profile type " ++ profile_type))

  unfoldable pub code_sign_owner_id : Bytes → Result CodeSignError Text
  code_sign_owner_id profile = do
    value ← profile_value profile
    owner_of_type value (get_str value (codes "type"))
