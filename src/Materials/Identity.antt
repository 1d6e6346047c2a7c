-- ===== src/Materials/Identity.antt =====
-- The signing identity that `load_signing_identity` returns.
use hap_resigner.Prelude.{
  ◌≡◌, ◌≢◌, ap, sym, ◌∙◌, subst, true, false, List, [], ◌∷◌, ◌++◌, bytes_eq_iff, ok, >>=-eq-ok,
  ok-injective, map_err, map_err-eq-ok, All, Bytes, Text,
}
use hap_resigner.External.{SigningIdentity}
use hap_resigner.Materials.{
  MaterialError, PemBlock, KeyLibraries, Marked, ders, order_chain, load_private_signing_key,
  mark_chain, load_signing_identity,
}
use hap_resigner.Materials.Leaf.{
  chain_of, HasKey, IsMarked, order_chain-IsFirst, ders-append, mark_chain-IsMarked,
}

-- A certificate of another key.
pub record IsForeign (lib : KeyLibraries) (key der : Bytes) : Type 0 where
  pub other : Bytes
  pub has_key : HasKey lib other der
  pub differs : other ≢ key

-- The certificates are those of the file; the first is the first of the signer's key, and the others
-- follow in their order.
pub record IsIdentity (lib : KeyLibraries) (pem : Bytes) (identity : SigningIdentity lib.SigningKey)
    : Type 0 where
  pub blocks : List PemBlock
  pub read : lib.parse_many pem ≡ ok blocks
  pub key : Bytes
  pub key_is : lib.to_public_key_der identity.signing_key ≡ ok key
  pub front : List Bytes
  pub leaf : Bytes
  pub back : List Bytes
  pub chain : chain_of blocks ≡ front ++ (leaf ∷ back)
  pub certificates : identity.certificates ≡ leaf ∷ (front ++ back)
  pub leaf_key : HasKey lib key leaf
  pub before : All (IsForeign lib key) front

All-split {ℓ} :
    {A : Type ℓ} (P : A → Type 0) (xs : List A) (y : A) (ys : List A)
    → All P (xs ++ (y ∷ ys))
    → All P xs × P y
All-split P [] y ys (p, ps) = (tt, p)
All-split P (x ∷ xs) y ys (p, ps) = let (qs, q) = All-split P xs y ys ps in ((p, qs), q)

module _ (lib : KeyLibraries) (key : Bytes) where
  marked-HasKey : (der : Bytes) → IsMarked lib key (true, der) → HasKey lib key der
  marked-HasKey der m =
      subst (λ k. HasKey lib k der) ((bytes_eq_iff m.key key).0 (sym m.marked)) m.has_key

  unmarked-IsForeign : (m : Marked) → IsMarked lib key m → m.0 ≡ false → IsForeign lib key m.1
  unmarked-IsForeign m k unmatched = record {
    other = k.key;
    has_key = k.has_key;
    differs = λ e. cc ((bytes_eq_iff k.key key).1 e, k.marked, unmatched);
  }

  ders-IsForeign :
      (ms : List Marked)
      → All (IsMarked lib key) ms
      → All (λ (m : Marked). m.0 ≡ false) ms
      → All (IsForeign lib key) (ders ms)
  unfolding ders
  ders-IsForeign [] k u = tt
  ders-IsForeign (m ∷ ms) (k, ks) (u, us) = (unmarked-IsForeign m k u, ders-IsForeign ms ks us)

-- The identity that `load_signing_identity` returns has the certificates of the PEM file: first the
-- first one whose public key is that of the signing key, then the others in their order. So the list
-- is not empty, and the certificate that a signature names belongs to the key that signs.
pub load_signing_identity-IsIdentity :
    (lib : KeyLibraries) (p12 : Bytes) (password : Text) (pem : Bytes)
    {identity : SigningIdentity lib.SigningKey}
    → load_signing_identity lib p12 password pem ≡ ok identity
    → IsIdentity lib pem identity
unfolding load_signing_identity ders
load_signing_identity-IsIdentity lib p12 password pem h =
    let ((alias, signing_key), _, h1) = >>=-eq-ok (load_private_signing_key lib p12 password) _ h in
    let (key, hk, h2) =
      >>=-eq-ok (map_err MaterialError.private_key (lib.to_public_key_der signing_key)) _ h1 in
    let (blocks, hb, h3) =
      >>=-eq-ok (map_err MaterialError.certificate (lib.parse_many pem)) _ h2 in
    let (ms, hm, h4) = >>=-eq-ok (mark_chain lib key blocks) _ h3 in
    let (ordered, ho, h5) = >>=-eq-ok (order_chain ms) _ h4 in
    let (leaf, others, first, shape) = order_chain-IsFirst ms ho in
    let (marked, chain) = mark_chain-IsMarked lib key blocks hm in
    let (fronts, leaf_marked) =
      All-split (IsMarked lib key) first.front (true, leaf) first.back
        (subst (All (IsMarked lib key)) first.split marked) in
    subst (IsIdentity lib pem) (ok-injective h5) (record {
      blocks = blocks;
      read = map_err-eq-ok MaterialError.certificate _ hb;
      key = key;
      key_is = map_err-eq-ok MaterialError.private_key _ hk;
      front = ders first.front;
      leaf = leaf;
      back = ders first.back;
      chain = sym chain ∙ ap ders first.split ∙ ders-append first.front ((true, leaf) ∷ first.back);
      certificates =
          shape
          ∙ ap (λ ms. leaf ∷ ders ms) first.rest
          ∙ ap (λ ds. leaf ∷ ds) (ders-append first.front first.back);
      leaf_key = marked-HasKey lib key leaf leaf_marked;
      before = ders-IsForeign lib key first.front fronts first.unmatched;
    })
