-- ===== src/Agc/Client/Issued.antt =====
-- The certificate that `upload_csr` returns.
use hap_resigner.Prelude.{
  ℕ, zero, suc, ◌≡◌, ◌≢◌, refl, Bool, true, false, not, ◌&&◌, some, List, [], ◌∷◌, if◌then◌else◌,
  bytes_eq, Result, ok, err, All, Text, Bool-cases, inl, inr, codes,
}
use hap_resigner.Effect.{
  Triple, pure, lift, attempt, bind-Triple, pure-Triple, lift-Triple, any-Triple, weaken-Triple,
  Always, Triple-ok,
}
use hap_resigner.Strings.{is_blank}
use hap_resigner.Agc.{CertificateRecord, AgcError, Value, Service}
use hap_resigner.Agc.Messages.{check_response}
use hap_resigner.Agc.Client.{
  has_id, certificate_record_is_complete, matching_certificates, pass_duplicate,
  certificate_lookup_attempts,
}
use hap_resigner.Agc.Client.Calls.{
  Call, send_json_value, list_certificates, certificate_turn, certificate_attempt,
  certificate_lookup, direct_certificate, upload_csr,
}
use hap_resigner.Agc.Client.Registered.{and_both, filled, has_id-filled}

-- The record has an id and an address.
pub record IsIssued (c : CertificateRecord) : Type 0 where
  pub id : Text
  pub id_is : c.id ≡ some id
  pub id_filled : id ≢ []
  pub url_filled : c.cert_url ≢ []

complete-IsIssued : (c : CertificateRecord) → certificate_record_is_complete c ≡ true → IsIssued c
unfolding certificate_record_is_complete
complete-IsIssued c h =
    let (i, u) = and_both (has_id c.id) (not (is_blank c.cert_url)) h in
    let (id, id_is, id_filled) = has_id-filled c.id i in
    record { id = id; id_is = id_is; id_filled = id_filled; url_filled = filled c.cert_url u }

matching_certificates-IsIssued :
    (name : Text) (cs : List CertificateRecord) → All IsIssued (matching_certificates name cs)
unfolding matching_certificates
matching_certificates-IsIssued name [] = tt
matching_certificates-IsIssued name (c ∷ cs) =
    elim (Bool-cases (bytes_eq c.cert_name name && certificate_record_is_complete c)) [
      | inr e ↦ rw e (matching_certificates-IsIssued name cs)
      | inl e ↦
          let (n, k) = and_both (bytes_eq c.cert_name name) (certificate_record_is_complete c) e in
          rw e ((complete-IsIssued c k, matching_certificates-IsIssued name cs))
    ]

module _ (service : Service) where
  abbrev Issues : Call service CertificateRecord → Type 0
  Issues m = Triple Always m (λ c w. IsIssued c) Always

  certificate_turn-Issues :
      (name last_error : Text) (rest : Text → Call service CertificateRecord)
      (cs : List CertificateRecord)
      → All IsIssued cs
      → Issues (rest last_error)
      → Issues (certificate_turn service name last_error rest cs)
  certificate_turn-Issues name last_error rest [] k h = h
  certificate_turn-Issues name last_error rest (c ∷ []) k h = pure-Triple c (λ w p. k.0)
  certificate_turn-Issues name last_error rest (c ∷ (d ∷ cs)) k h =
      weaken-Triple (lift-Triple {P = Always} (err _)) (λ w p. p) (λ a w k. cc (k.1)) (λ w p. p)

  certificate_lookup-Issues :
      (name summary : Text) (attempts : ℕ) (last_error : Text)
      → Issues (certificate_lookup service name summary attempts last_error)
  unfolding certificate_lookup
  certificate_lookup-Issues name summary zero last_error =
      weaken-Triple (lift-Triple {P = Always} (err _)) (λ w p. p) (λ a w k. cc (k.1)) (λ w p. p)
  certificate_lookup-Issues name summary (suc attempts) last_error =
      bind-Triple (any-Triple (attempt (list_certificates service)))
        (λ found. turned found (certificate_lookup-Issues name summary attempts))
    where
      turned :
          (found : Result AgcError (List CertificateRecord))
          → ((text : Text) → Issues (certificate_lookup service name summary attempts text))
          → Issues (
              certificate_attempt service name last_error
                (certificate_lookup service name summary attempts)
                found)
      turned (err e) h = h _
      turned (ok certificates) h =
          certificate_turn-Issues name last_error (certificate_lookup service name summary attempts)
            (matching_certificates name certificates)
            (matching_certificates-IsIssued name certificates) (h last_error)

  upload_csr-Issues : (csr name : Text) → Issues (upload_csr service csr name)
  unfolding upload_csr
  upload_csr-Issues csr name =
      bind-Triple (any-Triple (send_json_value service _ _ false)) (λ value.
        bind-Triple (any-Triple (lift (pass_duplicate _ (check_response service.decimal _ value))))
          (λ _.
            bind-Triple (any-Triple (lift (direct_certificate service _ value))) (λ direct.
              by_completeness direct (certificate_record_is_complete direct) refl value)))
    where
      by_completeness :
          (direct : CertificateRecord) (b : Bool)
          → certificate_record_is_complete direct ≡ b
          → (value : Value)
          → Issues (
              if b
              then pure direct
              else certificate_lookup service name
                  (service.response_value_preview value)
                  certificate_lookup_attempts
                  (codes "none"))
      by_completeness direct true e value = pure-Triple direct (λ w p. complete-IsIssued direct e)
      by_completeness direct false e value =
          certificate_lookup-Issues name _ certificate_lookup_attempts _

-- Whatever the service replies, a certificate that `upload_csr` returns has an id and an address that
-- are not empty.
pub upload_csr-IsIssued :
    (service : Service) (csr name : Text) (w w' : service.State) (c : CertificateRecord)
    → upload_csr service csr name w ≡ (ok c, w')
    → IsIssued c
upload_csr-IsIssued service csr name w w' c e =
    Triple-ok (upload_csr-Issues service csr name) w tt c w' e
