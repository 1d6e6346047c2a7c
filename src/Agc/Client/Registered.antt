-- ===== src/Agc/Client/Registered.antt =====
-- The device that `register_device` returns.
use hap_resigner.Prelude.{
  ℕ, zero, suc, ◌≡◌, ◌≢◌, refl, subst, Bool, true, false, not, ◌&&◌, ◌||◌, Option, none, some, List,
  [], ◌∷◌, if◌then◌else◌, bytes_eq_iff, Result, ok, err, Text, Bool-cases, inl, inr, codes,
}
use hap_resigner.Effect.{
  Triple, lift, attempt, bind-Triple, pure-Triple, lift-Triple, fact-Triple, any-Triple,
  weaken-Triple, Always, Triple-ok,
}
use hap_resigner.Strings.{to_ascii_lowercase, eq_ignore_ascii_case, is_blank}
use hap_resigner.Agc.{DeviceRecord, AgcError, Value, Service}
use hap_resigner.Agc.Messages.{check_response}
use hap_resigner.Agc.Client.{
  has_id, device_record_is_complete, is_match, unique_complete_device, Added, added, look_up,
  direct_or_look_up, pass_duplicate, any_with_udid, device_lookup_attempts,
}
use hap_resigner.Agc.Client.Calls.{
  Call, send_json_value, decode_value, list_devices, add_reply, add_if_missing, device_or,
  device_turn, device_lookup, device_of, register_device,
}
use hap_resigner.Agc.Client.Lookup.{unique_complete_device_iff}

-- The record has an id, and is of the device.
pub record IsRegistered (udid : Text) (d : DeviceRecord) : Type 0 where
  pub id : Text
  pub id_is : d.id ≡ some id
  pub id_filled : id ≢ []
  pub same_udid : eq_ignore_ascii_case d.udid udid ≡ true

pub and_both : (a b : Bool) → (a && b) ≡ true → (a ≡ true) × (b ≡ true)
and_both true b h = (refl, h)
and_both false b h = cc

pub filled : (t : Text) → not (is_blank t) ≡ true → t ≢ []
filled t h e = cc (rw e at h)

pub has_id-filled : (o : Option Text) → has_id o ≡ true → (id : Text) × (o ≡ some id) × (id ≢ [])
has_id-filled none h = cc
has_id-filled (some id) h = (id, refl, filled id h)

registered :
    (udid : Text) (d : DeviceRecord)
    → has_id d.id ≡ true
    → eq_ignore_ascii_case d.udid udid ≡ true
    → IsRegistered udid d
registered udid d h e =
    let (id, id_is, id_filled) = has_id-filled d.id h in
    record { id = id; id_is = id_is; id_filled = id_filled; same_udid = e }

is_match-IsRegistered :
    (udid : Text) (d : DeviceRecord) → is_match udid d ≡ true → IsRegistered udid d
unfolding device_record_is_complete
is_match-IsRegistered udid d h =
    let (e, c) = and_both (eq_ignore_ascii_case d.udid udid) (device_record_is_complete d) h in
    registered udid d c e

eq_ignore_self : (t : Text) → eq_ignore_ascii_case t t ≡ true
unfolding eq_ignore_ascii_case
eq_ignore_self t = (bytes_eq_iff (to_ascii_lowercase t) (to_ascii_lowercase t)).1 refl

-- The UDID that a reply leaves out is that of the request.
filled_udid :
    (udid own : Text)
    → (is_blank own || eq_ignore_ascii_case own udid) ≡ true
    → eq_ignore_ascii_case (if is_blank own then udid else own) udid ≡ true
filled_udid udid [] h = eq_ignore_self udid
filled_udid udid (c ∷ own) h = h

direct-IsRegistered :
    (udid name : Text) (direct d : DeviceRecord)
    → direct_or_look_up udid name direct ≡ added d
    → IsRegistered udid d
unfolding direct_or_look_up device_record_is_complete
direct-IsRegistered udid name direct d h =
    elim (Bool-cases
      (has_id direct.id && (is_blank direct.udid || eq_ignore_ascii_case direct.udid udid))) [
        | inr e ↦ cc (rw e at h)
        | inl e ↦
            let (i, u) =
              and_both (has_id direct.id)
                (is_blank direct.udid || eq_ignore_ascii_case direct.udid udid) e in
            subst (IsRegistered udid) (added-injective (rw e at h))
              (registered udid _ i (filled_udid udid direct.udid u))
      ]
  where
    added-injective : {x y : DeviceRecord} → added x ≡ added y → x ≡ y
    added-injective k = cc (k)

module _ (service : Service) (udid : Text) where
  abbrev Registers : Call service DeviceRecord → Type 0
  Registers m = Triple Always m (λ d w. IsRegistered udid d) Always

  device_or-Registers :
      (devices : List DeviceRecord) (found : Option DeviceRecord) {rest : Call service DeviceRecord}
      → unique_complete_device devices udid ≡ ok found
      → Registers rest
      → Triple Always (device_or service found rest) (λ d w. IsRegistered udid d) Always
  device_or-Registers devices none e h = h
  device_or-Registers devices (some d) e h = pure-Triple d (λ w p.
      is_match-IsRegistered udid d ((unique_complete_device_iff devices udid d).0 e).matches)

  device_lookup-Registers :
      (summary : Text) (attempts : ℕ) (last_error : Text)
      → Registers (device_lookup service udid summary attempts last_error)
  unfolding device_lookup
  device_lookup-Registers summary zero last_error =
      weaken-Triple (lift-Triple {P = Always} (err _)) (λ w p. p) (λ a w k. cc (k.1)) (λ w p. p)
  device_lookup-Registers summary (suc attempts) last_error =
      bind-Triple (any-Triple (attempt (list_devices service)))
        (λ devices. turned devices (device_lookup-Registers summary attempts))
    where
      turned :
          (devices : Result AgcError (List DeviceRecord))
          → ((text : Text) → Registers (device_lookup service udid summary attempts text))
          → Registers (
              device_turn service udid last_error
                (device_lookup service udid summary attempts)
                devices)
      turned (err e) h = h _
      turned (ok devices) h =
          bind-Triple (lift-Triple {P = Always} (unique_complete_device devices udid))
            (λ found. fact-Triple (λ e. device_or-Registers devices found e (h last_error)))

  -- What is added is registered.
  abbrev IsAdded : Added → Type 0
  IsAdded a = (d : DeviceRecord) → a ≡ added d → IsRegistered udid d

  add_reply-IsAdded :
      (name : Text) (duplicate : Bool) (value : Value)
      → Triple Always (add_reply service udid name duplicate value) (λ a w. IsAdded a) Always
  add_reply-IsAdded name true value = pure-Triple _ (λ w p d e. cc (e))
  add_reply-IsAdded name false value =
      bind-Triple (any-Triple (lift (decode_value service service.device _ value)))
        (λ direct. pure-Triple _ (λ w p d e. direct-IsRegistered udid name direct d e))

  add_if_missing-IsAdded :
      (type name : Text) (seen : Bool)
      → Triple Always (add_if_missing service udid type name seen) (λ a w. IsAdded a) Always
  unfolding add_if_missing
  add_if_missing-IsAdded type name true = pure-Triple _ (λ w p d e. cc (e))
  add_if_missing-IsAdded type name false =
      bind-Triple (any-Triple (send_json_value service _ _ false)) (λ value.
        bind-Triple (any-Triple (lift (pass_duplicate _ (check_response service.decimal _ value))))
          (λ _. add_reply-IsAdded name _ value))

  device_of-Registers :
      (a : Added)
      → Triple (λ w. IsAdded a) (device_of service udid a) (λ d w. IsRegistered udid d) Always
  device_of-Registers (added d) = pure-Triple d (λ w h. h d refl)
  device_of-Registers (look_up summary) =
      weaken-Triple (device_lookup-Registers summary device_lookup_attempts (codes "none"))
        (λ w h. tt) (λ d w h. h) (λ w h. h)

  register_device-Registers :
      (type name : Text) → Registers (register_device service udid type name)
  unfolding register_device
  register_device-Registers type name = bind-Triple (any-Triple (list_devices service)) (λ devices.
      bind-Triple (lift-Triple {P = Always} (unique_complete_device devices udid)) (λ found.
        fact-Triple (λ e. device_or-Registers devices found e (
          bind-Triple (add_if_missing-IsAdded type name (any_with_udid udid devices))
            device_of-Registers))))

-- Whatever the service replies, a device that `register_device` returns has an id that is not empty and
-- the UDID that was asked for, with no regard to case.
pub register_device-IsRegistered :
    (service : Service) (udid type name : Text) (w w' : service.State) (d : DeviceRecord)
    → register_device service udid type name w ≡ (ok d, w')
    → IsRegistered udid d
register_device-IsRegistered service udid type name w w' d e =
    Triple-ok (register_device-Registers service udid type name) w tt d w' e
