-- ===== src/Tests/Device.antt =====
-- A listing with an unauthorized device, a usable one and one that does not tell its UDID.
use hap_resigner.Prelude.{
  ◌≡◌, refl, true, List, [], ◌∷◌, ◌++◌, if◌then◌else◌, ok, All, Text, codes, replicate, bytes_eq,
  starts_with,
}
use hap_resigner.Effect.{Effect, pure}
use hap_resigner.Strings.{
  contains, all_bytes, is_alphanumeric, eq_ignore_ascii_case, to_ascii_lowercase, lower, trim,
  trim_start_from, trim_end, space_at, split, split_from, drop_empty, split_whitespace, lines,
  line_pieces, strip_return,
}
use hap_resigner.App.State.{DeviceInfo}
use hap_resigner.Device.{
  CommandOutput, any_unavailable, target_of, targets_of, parse_available_targets, find_udid_in,
  parse_udid, run, run_target, probe_target, probe_loop, list_devices,
}
use hap_resigner.Device.Listed.{IsListed, list_devices-IsListed}

abbrev udid : Text
udid = replicate 64 97

abbrev listing : Text
listing = codes "A Unauthorized\nB ok\nC\n"

abbrev reply : List Text → Text
reply (t ∷ (target ∷ (shell ∷ args))) =
    if bytes_eq target (codes "B") then codes "udid:" ++ udid else []
reply args = listing

abbrev runner : List Text → Effect (Unit {0}) Text CommandOutput
runner args = pure (record { success = true; stdout = reply args; stderr = [] })

abbrev usable : DeviceInfo
usable = record { target = codes "B"; udid = udid; model = codes "udid:" ++ udid }

lists : list_devices runner tt ≡ (ok (usable ∷ []), tt)
unfolding list_devices run run_target probe_target probe_loop parse_available_targets targets_of
    target_of any_unavailable find_udid_in parse_udid contains all_bytes is_alphanumeric
    eq_ignore_ascii_case to_ascii_lowercase lower trim trim_start_from trim_end space_at split
    split_from drop_empty split_whitespace lines line_pieces strip_return starts_with bytes_eq
lists = refl

list_devices-IsListed_example :
    (output : CommandOutput) × (v : Unit {0}) × (run runner
        (codes "list" ∷ (codes "targets" ∷ []))
        tt
      ≡ (ok output, v))
    × All (IsListed runner output.stdout) (usable ∷ [])
list_devices-IsListed_example = list_devices-IsListed runner tt tt (usable ∷ []) lists
