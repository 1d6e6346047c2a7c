-- ===== src/Device/Udid.antt =====
-- The UDID that an answer of a device tells.
use hap_resigner.Prelude.{
  ◌≡◌, refl, ap, subst, Bool, true, false, ◌&&◌, some, List, [], ◌∷◌, ◌++◌, ◌==◌, ==_iff, length,
  All, Text, Bool-cases, inl, inr,
}
use mathlib.Core.Option.{some-injective}
use hap_resigner.Effect.{}
use hap_resigner.Strings.{all_bytes, is_alphanumeric, trim}
use hap_resigner.Device.{is_udid, find_udid_in}

-- A UDID has 64 ASCII letters and digits.
pub record IsUdid (udid : Text) : Type 0 where
  pub size : length udid ≡ 64
  pub alphanumeric : all_bytes is_alphanumeric udid ≡ true

sized :
    (value : Text) (b : Bool)
    → (length value == 64) ≡ b
    → (b && all_bytes is_alphanumeric value) ≡ true
    → IsUdid value
sized value true s h = record { size = (==_iff (length value) 64).0 s; alphanumeric = h }
sized value false s h = cc (h)

-- The first piece that is a UDID.
pub record IsFirstUdid (pieces : List Text) (udid : Text) : Type 0 where
  pub shape : IsUdid udid
  pub before : List Text
  pub piece : Text
  pub behind : List Text
  pub split_is : pieces ≡ before ++ (piece ∷ behind)
  pub same : trim piece ≡ udid
  pub first : All (λ other. ¬ IsUdid (trim other)) before

not_udid : (value : Text) → is_udid value ≡ false → ¬ IsUdid value
not_udid value h u = cc (rw ((==_iff (length value) 64).1 u.size, u.alphanumeric) at h)

pub find_udid_in-IsFirstUdid :
    (pieces : List Text) (udid : Text) → find_udid_in pieces ≡ some udid → IsFirstUdid pieces udid
unfolding find_udid_in
find_udid_in-IsFirstUdid [] udid h = cc
find_udid_in-IsFirstUdid (piece ∷ pieces) udid h = elim (Bool-cases (is_udid (trim piece))) [
  | inr e ↦
      let k = find_udid_in-IsFirstUdid pieces udid (rw e at h) in
      record {
        shape = k.shape;
        before = piece ∷ k.before;
        piece = k.piece;
        behind = k.behind;
        split_is = ap (◌∷◌ piece) k.split_is;
        same = k.same;
        first = (not_udid (trim piece) e, k.first);
      }
  | inl e ↦
      let same = some-injective _ _ (rw e at h) in
      record {
        shape = subst IsUdid same (sized (trim piece) (length (trim piece) == 64) refl e);
        before = [];
        piece = piece;
        behind = pieces;
        split_is = refl;
        same = same;
        first = tt;
      }
]
