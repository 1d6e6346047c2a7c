-- ===== src/Materials/Leaf.antt =====
-- The order of the certificates that `load_signing_identity` returns.
use hap_resigner.Prelude.{
  ℕ, zero, suc, ◌≡◌, refl, ap, sym, ◌∙◌, subst, true, false, Option, some, List, [], ◌∷◌, ◌++◌,
  Bool-cases, inl, inr, if◌then◌else◌, bytes_eq, ok, >>=-eq-ok, ok-injective, ok_or, ok_or-eq-ok,
  map_err, map_err-eq-ok, All, Bytes, codes, arith, Option-cases,
}
use mathlib.Core.Option.{some-injective}
use hap_resigner.Materials.{
  MaterialError, PemBlock, KeyLibraries, Marked, position, remove, ders, order_chain, mark,
  mark_chain, matching_certificate_not_found,
}

-- The certificates of a PEM file, in order.
abbrev pub chain_of : List PemBlock → List Bytes
chain_of [] = []
chain_of (b ∷ bs) =
    if bytes_eq b.tag (codes "CERTIFICATE") then b.contents ∷ chain_of bs else chain_of bs

-- The certificate in `der` has the public key `key`.
pub record HasKey (lib : KeyLibraries) (key der : Bytes) : Type 0 where
  pub certificate : lib.Certificate
  pub parsed : lib.certificate_from_der der ≡ ok certificate
  pub public_key : lib.subject_public_key_der certificate ≡ ok key

-- What the loop knows of a certificate: whether its key is the signer's.
pub record IsMarked (lib : KeyLibraries) (spki : Bytes) (m : Marked) : Type 0 where
  pub key : Bytes
  pub has_key : HasKey lib key m.1
  pub marked : m.0 ≡ bytes_eq key spki

-- The list split at its first match.
pub record IsFirst (ms : List Marked) (leaf : Bytes) (others : List Marked) : Type 0 where
  pub front : List Marked
  pub back : List Marked
  pub split : ms ≡ front ++ ((true, leaf) ∷ back)
  pub unmatched : All (λ (m : Marked). m.0 ≡ false) front
  pub rest : others ≡ front ++ back

behind-IsFirst :
    (ms : List Marked) (der leaf : Bytes) (others : List Marked)
    → IsFirst ms leaf others
    → IsFirst ((false, der) ∷ ms) leaf ((false, der) ∷ others)
behind-IsFirst ms der leaf others f = record {
  front = (false, der) ∷ f.front;
  back = f.back;
  split = ap (λ t. (false, der) ∷ t) f.split;
  unmatched = (refl, f.unmatched);
  rest = ap (λ t. (false, der) ∷ t) f.rest;
}

remove-IsFirst :
    (ms : List Marked) (i : ℕ) (m : Marked) (others : List Marked)
    → position ms ≡ some i
    → remove i ms ≡ some (m, others)
    → IsFirst ms m.1 others
unfolding position remove
remove-IsFirst [] i m others h r = cc
remove-IsFirst ((true, der) ∷ ms) zero m others h r =
    let pair = some-injective _ _ r in
    record {
      front = [];
      back = ms;
      split = ap (λ (x : Marked × List Marked). (true, x.0.1) ∷ ms) pair;
      unmatched = tt;
      rest = ap (λ (x : Marked × List Marked). x.1) (sym pair);
    }
remove-IsFirst ((true, der) ∷ ms) (suc i) m others h r = absurd (suc_not_zero h)
  where
    suc_not_zero : ◌≡◌ {A = Option ℕ} (some 0) (some (suc i)) → ⊥
    suc_not_zero e = omega (arith, some-injective _ _ e)
remove-IsFirst ((false, der) ∷ ms) i m others h r = elim (Option-cases (position ms)) [
  | inl absent ↦ cc (rw absent at h)
  | inr (j, at_j) ↦
      let e : suc j ≡ i = some-injective _ _ (rw at_j at h) in
      elim (Option-cases (remove j ms)) [
        | inl absent ↦ cc (rw absent at (rw (← e) at r))
        | inr ((m', others'), removed) ↦
            let pair = some-injective _ _ (rw removed at (rw (← e) at r)) in
            let inner = remove-IsFirst ms j m' others' at_j removed in
            subst (λ (x : Marked × List Marked). IsFirst ((false, der) ∷ ms) x.0.1 x.1) pair
              (behind-IsFirst ms der m'.1 others' inner)
      ]
]

pub ders-append : (xs ys : List Marked) → ders (xs ++ ys) ≡ ders xs ++ ders ys
unfolding ders
ders-append [] ys = refl
ders-append ((b, d) ∷ xs) ys = ap (λ t. d ∷ t) (ders-append xs ys)

pub order_chain-IsFirst :
    (ms : List Marked) {ordered : List Bytes}
    → order_chain ms ≡ ok ordered
    → (leaf : Bytes) × (others : List Marked) × IsFirst ms leaf others
      × (ordered ≡ leaf ∷ ders others)
unfolding order_chain
order_chain-IsFirst ms h =
    let (i, at_i, h1) = >>=-eq-ok (ok_or (position ms) matching_certificate_not_found) _ h in
    let (((b, leaf), others), removed, h2) =
      >>=-eq-ok (ok_or (remove i ms) matching_certificate_not_found) _ h1 in
    (
      leaf,
      others,
      remove-IsFirst ms i (b, leaf) others (ok_or-eq-ok _ _ at_i) (ok_or-eq-ok _ _ removed),
      sym (ok-injective h2),
    )

module _ (lib : KeyLibraries) where
  mark-IsMarked :
      (spki der : Bytes) {m : Marked} → mark lib spki der ≡ ok m → IsMarked lib spki m × (m.1 ≡ der)
  unfolding mark
  mark-IsMarked spki der {m} h =
      let (parsed, hp, h1) =
        >>=-eq-ok (map_err MaterialError.certificate (lib.certificate_from_der der)) _ h in
      let (key, hk, h2) =
        >>=-eq-ok (map_err MaterialError.certificate (lib.subject_public_key_der parsed)) _ h1 in
      let e = ok-injective h2 in
      (
        subst (IsMarked lib spki) e (record {
          key = key;
          has_key = record {
            certificate = parsed;
            parsed = map_err-eq-ok MaterialError.certificate _ hp;
            public_key = map_err-eq-ok MaterialError.certificate _ hk;
          };
          marked = refl;
        }),
        ap (λ (x : Marked). x.1) (sym e),
      )

  pub mark_chain-IsMarked :
      (spki : Bytes) (blocks : List PemBlock) {ms : List Marked}
      → mark_chain lib spki blocks ≡ ok ms
      → All (IsMarked lib spki) ms × (ders ms ≡ chain_of blocks)
  unfolding mark_chain ders
  mark_chain-IsMarked spki [] h =
      subst (λ ms. All (IsMarked lib spki) ms × (ders ms ≡ [])) (ok-injective h) (tt, refl)
  mark_chain-IsMarked spki (b ∷ bs) h = elim (Bool-cases (bytes_eq b.tag (codes "CERTIFICATE"))) [
    | inr other ↦ rw other (mark_chain-IsMarked spki bs (rw other at h))
    | inl certificate ↦
        let (m, hm, h1) = >>=-eq-ok (mark lib spki b.contents) _ (rw certificate at h) in
        let (later, hl, h2) = >>=-eq-ok (mark_chain lib spki bs) _ h1 in
        let (is_marked, der) = mark-IsMarked spki b.contents hm in
        let (all, chain) = mark_chain-IsMarked spki bs hl in
        rw certificate (
          subst (λ ms. All (IsMarked lib spki) ms × (ders ms ≡ b.contents ∷ chain_of bs))
            (ok-injective h2)
            ((is_marked, all), ap (λ d. d ∷ ders later) der ∙ ap (λ c. b.contents ∷ c) chain))
  ]
