-- ===== src/Device.antt =====
-- src/device/hdc.rs: the talk with the devices over hdc. The runner is a parameter with a state; the
-- one that tries hdc itself is `inline_run`.
pub mod Offered
pub mod Udid
pub mod Listed
use hap_resigner.Prelude.{
  ℕ, zero, suc, ◌+◌, ◌-◌, ◌*◌, ◌^◌, Bool, true, false, not, ◌&&◌, ◌||◌, Option, none, some, List,
  [], ◌∷◌, ◌++◌, if◌then◌else◌, ltb, ◌==◌, bytes_eq, Result, ok, err, fail_if, ok_or, map_err,
  and_then, length, Text, codes,
}
use hap_resigner.Effect.{Effect, pure, lift, map_error, attempt, ◌>>=◌, ◌>>◌}
use hap_resigner.Strings.{
  to_ascii_lowercase, eq_ignore_ascii_case, contains, all_bytes, is_alphanumeric, is_digit,
  is_blank, white_space, space_at, trim, split, parse_number, split_whitespace, lines,
}
use hap_resigner.App.State.{DeviceInfo}

pub record CommandOutput : Type 0 where
  pub success : Bool
  pub stdout : Text
  pub stderr : Text

pub data HdcError : Type 0 where
  tool_not_found : HdcError
  io : Text → HdcError
  device_probe : Text → Text → HdcError
  command : Text → HdcError
  invalid_path : HdcError
  process_not_running : HdcError

-- One line of `hdc list targets`: its fields, of which the first is the target.
abbrev pub is_unavailable_field : Text → Bool
is_unavailable_field field =
    eq_ignore_ascii_case field (codes "Unauthorized")
    || eq_ignore_ascii_case field (codes "Offline")

unfoldable pub any_unavailable : List Text → Bool
any_unavailable [] = false
any_unavailable (field ∷ fields) = is_unavailable_field field || any_unavailable fields

unfoldable pub target_of : List Text → Option Text
target_of [] = none
target_of (target ∷ fields) =
    if bytes_eq target (codes "[Empty]") || any_unavailable fields then none else some target

abbrev pub with_target : Option Text → List Text → List Text
with_target none targets = targets
with_target (some target) targets = target ∷ targets

unfoldable pub targets_of : List Text → List Text
targets_of [] = []
targets_of (line ∷ lines) =
    let rest = targets_of lines in
    if is_blank (trim line)
    then rest
    else with_target (target_of (split_whitespace (trim line))) rest

unfoldable pub parse_available_targets : Text → List Text
parse_available_targets output = targets_of (lines output)

-- The separators of `parse_udid`: white space and colons.
abbrev pub separator_at : Text → ℕ
separator_at [] = 0
separator_at (c ∷ cs) = if c == 58 then 1 else space_at (c ∷ cs) white_space

abbrev pub is_udid : Text → Bool
is_udid value = length value == 64 && all_bytes is_alphanumeric value

unfoldable pub find_udid_in : List Text → Option Text
find_udid_in [] = none
find_udid_in (piece ∷ pieces) =
    let rest = find_udid_in pieces in if is_udid (trim piece) then some (trim piece) else rest

unfoldable pub parse_udid : Text → Option Text
parse_udid output = find_udid_in (split separator_at output)

-- `value.parse::<u32>().ok()`.
abbrev pub parse_u32 : Text → Option ℕ
parse_u32 text = parse_number (2 ^ 32) text

abbrev pub first_word : List Text → Option Text
first_word [] = none
first_word (word ∷ words) = some word

abbrev pub last_or_failed : Option Text → Text
last_or_failed none = codes "inline HDC failed"
last_or_failed (some error) = error

abbrev pub error_of : Option Text → Result Text Text → Option Text
error_of last (ok stdout) = last
error_of last (err error) = some error

abbrev pub get_udid : List Text
get_udid = codes "shell" ∷ (codes "bm" ∷ (codes "get" ∷ (codes "--udid" ∷ [])))

abbrev pub get_model : List Text
get_model = codes "shell" ∷ (codes "param" ∷ (codes "get" ∷ (codes "const.product.model" ∷ [])))

-- The devices that answer, and the last error of the others.
abbrev pub probed :
    Result HdcError DeviceInfo
    → List DeviceInfo × Option HdcError
    → List DeviceInfo × Option HdcError
probed (ok device) (devices, last_error) = (device ∷ devices, last_error)
probed (err e) (devices, none) = (devices, some e)
probed (err e) (devices, some last) = (devices, some last)

abbrev pub listed_or : List DeviceInfo → Option HdcError → Result HdcError (List DeviceInfo)
listed_or [] none = ok []
listed_or [] (some error) = err error
listed_or (device ∷ devices) last_error = ok (device ∷ devices)

module _ {State : Type 0} where
  -- `hdc_host_inline::run_command`, tried until it answers, five times at most.
  abbrev pub answered :
      Effect State Text CommandOutput → Result Text Text → Effect State Text CommandOutput
  answered again (ok stdout) =
      pure
        (record { success = not (contains stdout (codes "[Fail]")); stdout = stdout; stderr = [] })
  answered again (err error) = again

  unfoldable pub inline_attempts :
      (List Text → Effect State Text Text)
      → List Text
      → ℕ
      → Option Text
      → Effect State Text CommandOutput
  inline_attempts run_command args zero last_error = lift (err (last_or_failed last_error))
  inline_attempts run_command args (suc attempts) last_error =
      attempt (run_command args) >>= λ result.
      answered (inline_attempts run_command args attempts (error_of last_error result)) result

  unfoldable pub inline_run :
      (List Text → Effect State Text Text) → List Text → Effect State Text CommandOutput
  inline_run run_command args = inline_attempts run_command args 5 none

  module _ (runner : List Text → Effect State Text CommandOutput) where
    abbrev pub Talk : Type 0 → Type 0
    Talk A = Effect State HdcError A

    unfoldable pub run : List Text → Talk CommandOutput
    run args = do
      output ← map_error io (runner args)
      _ ← lift (fail_if (not output.success) (command (output.stdout ++ output.stderr)))
      pure output

    unfoldable pub run_target : Text → List Text → Talk CommandOutput
    run_target target args = run (codes "-t" ∷ (target ∷ args))

    unfoldable pub probe_target : Text → Talk DeviceInfo
    probe_target target = do
      udid_output ← map_error (λ e. device_probe target (codes "UDID")) (run_target target get_udid)
      udid ← lift (ok_or (parse_udid udid_output.stdout) (device_probe target (codes "UDID")))
      model ← map_error (λ e. device_probe target (codes "model")) (run_target target get_model)
      pure (record { target = target; udid = udid; model = trim model.stdout })

    unfoldable pub probe_loop : List Text → Talk (List DeviceInfo × Option HdcError)
    probe_loop [] = pure ([], none)
    probe_loop (target ∷ targets) = do
      device ← attempt (probe_target target)
      rest ← probe_loop targets
      pure (probed device rest)

    unfoldable pub list_devices : Talk (List DeviceInfo)
    list_devices = do
      output ← run (codes "list" ∷ (codes "targets" ∷ []))
      found ← probe_loop (parse_available_targets output.stdout)
      lift (listed_or found.0 found.1)

    -- The path is what `to_str` gives.
    unfoldable pub install : DeviceInfo → Option Text → Talk (Unit {0})
    install device hap = do
      path ← lift (ok_or hap invalid_path)
      output ←
          run_target device.target (codes "install" ∷ (codes "-r" ∷ (codes "-d" ∷ (path ∷ []))))
      lift (
          fail_if
            (not (contains (to_ascii_lowercase (output.stdout ++ output.stderr)) (codes "success")))
            (command (output.stdout ++ output.stderr)))

    unfoldable pub launch : DeviceInfo → Text → Text → Talk (Unit {0})
    launch device bundle_name ability = do
      _ ← run_target device.target (
          codes "shell"
          ∷ (codes "aa"
              ∷ (codes "start" ∷ (codes "-b" ∷ (bundle_name ∷ (codes "-a" ∷ (ability ∷ [])))))))
      pure tt

    unfoldable pub pid : DeviceInfo → Text → Talk ℕ
    pid device bundle_name = do
      output ← run_target device.target (codes "shell" ∷ (codes "pidof" ∷ (bundle_name ∷ [])))
      lift (
          ok_or (and_then (first_word (split_whitespace output.stdout)) parse_u32)
            process_not_running)
