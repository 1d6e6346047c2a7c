-- ===== src/Materials/Manager/Usable.antt =====
-- What the returned materials are good for, and the calls that only touch the files.
use hap_resigner.Prelude.{ℤ, ◌≡◌, some, List, ◌∷◌, ok, Bytes, Text}
use hap_resigner.Effect.{
  Effect, Triple, map_error-Triple, on_first-Triple, on_second-Triple, on_second,
}
use hap_resigner.Files.{IoError, Nodes, FileSystem, contents}
use hap_resigner.Files.Calls.{At}
use hap_resigner.Materials.{load_signing_identity}
use hap_resigner.Materials.Profile.Acceptable.{IsAcceptable}
use hap_resigner.Materials.Store.{StoreError, MaterialStore}
use hap_resigner.Materials.Store.Paths.{profile_file}
use hap_resigner.Materials.Manager.{
  ManagerError, store_failed, ManagerLibraries, Materials, on_store, on_io,
}

-- The materials are on disk: the pair loads the identity with the password, and the profile is
-- acceptable for the bundle, the device and the identity's first certificate.
pub record IsUsable (lib : ManagerLibraries) (store : MaterialStore) (bundle udid : Text) (now : ℤ)
    (n : Nodes) (m : Materials lib) : Type 0 where
  pub p12 : Bytes
  pub p12_is : contents m.pair.p12 n ≡ some p12
  pub chain : Bytes
  pub chain_is : contents m.pair.certificate n ≡ some chain
  pub loads : load_signing_identity lib.keys p12 m.password chain ≡ ok m.identity
  pub profile_path_is : m.profile_path ≡ profile_file store bundle
  pub profile_is : contents m.profile_path n ≡ some m.profile
  pub leaf : Bytes
  pub others : List Bytes
  pub certificates : m.identity.certificates ≡ leaf ∷ others
  pub acceptable : IsAcceptable lib.profiles m.profile bundle udid leaf now m.provision

module _ (lib : ManagerLibraries) where
  -- The pre- and post-conditions speak of the files only.
  abbrev pub AtFiles : (Nodes → Type 0) → FileSystem × lib.Outside → Type 0
  AtFiles P w = P w.0.nodes

  pub on_store-Triple :
      {A : Type 0} (P : Nodes → Type 0) (Q : A → Nodes → Type 0)
      {m : Effect FileSystem StoreError A}
      → Triple (At P) m (λ a fs. Q a fs.nodes) (At P)
      → Triple (AtFiles P) (on_store lib m) (λ a w. Q a w.0.nodes) (AtFiles P)
  on_store-Triple P Q h = map_error-Triple store_failed (on_first-Triple h)

  pub on_io-Triple :
      {A : Type 0} (P : Nodes → Type 0) (Q : A → Nodes → Type 0) {m : Effect FileSystem IoError A}
      → Triple (At P) m (λ a fs. Q a fs.nodes) (At P)
      → Triple (AtFiles P) (on_io lib m) (λ a w. Q a w.0.nodes) (AtFiles P)
  on_io-Triple P Q h = map_error-Triple ManagerError.io_failed (on_first-Triple h)

  -- A call outside keeps the files.
  pub outside-Triple :
      {A : Type 0} (P : Nodes → Type 0) (m : Effect lib.Outside ManagerError A)
      → Triple (AtFiles P) (on_second m) (λ a w. P w.0.nodes) (AtFiles P)
  outside-Triple P m = on_second-Triple (At P) m
