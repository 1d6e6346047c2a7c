-- ===== src/Materials/Store/Atomic.antt =====
-- What the store relies on of the crate atomic-write-file, and what a write of it leaves behind.
use hap_resigner.Prelude.{◌≡◌, refl, sym, ap, subst, ◌∙◌, [], ◌++◌, ok, err, ok_or, Result, Bytes}
use hap_resigner.Effect.{
  Effect, Triple, Post, bind-Triple, lift-Triple, map_error-Triple, weaken-Triple,
}
use hap_resigner.Files.{PathBuf, file, Nodes, FileSystem, put}
use hap_resigner.Files.Calls.{At, IsOfFiles, create_dir_all-Triple}
use hap_resigner.Materials.Store.{io, invalid_identifier, StoreLibraries, parent, atomic_write}

-- An atomic file is written aside: only a commit that succeeds changes what stands at its path, and
-- then to all that was written to it.
pub record IsAtomic (lib : StoreLibraries) : Type 0 where
  pub target : lib.AtomicFile → PathBuf
  pub text : lib.AtomicFile → Bytes
  pub opened :
      (path : PathBuf) (before : Nodes)
      → Triple
          (At (λ n. n ≡ before))
          (lib.open_atomic path)
          (λ f fs. (fs.nodes ≡ before) × (target f ≡ path) × (text f ≡ []))
          (At (λ n. n ≡ before))
  pub wrote :
      (f : lib.AtomicFile) (b : Bytes) (before : Nodes)
      → Triple
          (At (λ n. n ≡ before))
          (lib.write_all f b)
          (λ g fs. (fs.nodes ≡ before) × (target g ≡ target f) × (text g ≡ text f ++ b))
          (At (λ n. n ≡ before))
  pub committed :
      (f : lib.AtomicFile) (before : Nodes)
      → Triple
          (At (λ n. n ≡ before))
          (lib.commit f)
          (λ _ fs. fs.nodes ≡ put (target f) (file (text f)) before)
          (At (λ n. n ≡ before))

-- A call whose effect is known from each exact state keeps what holds of the states.
pub from_each_state :
    {E A : Type 0} (P : Nodes → Type 0) (Q : A → Nodes → Nodes → Type 0) (m : Effect FileSystem E A)
    → ((before : Nodes)
        → Triple (At (λ n. n ≡ before)) m (λ a fs. Q a before fs.nodes) (At (λ n. n ≡ before)))
    → (S : A → Nodes → Type 0)
    → ((a : A) (before after : Nodes) → P before → Q a before after → S a after)
    → Triple (At P) m (λ a fs. S a fs.nodes) (At P)
from_each_state {E = E} {A = A} P Q m h S k = record {
  run = λ fs p. moved fs p (m fs) ((h fs.nodes).run fs refl);
}
  where
    moved :
        (fs : FileSystem)
        → P fs.nodes
        → (x : Result E A × FileSystem)
        → Post (λ a (w : FileSystem). Q a fs.nodes w.nodes) (At (λ n. n ≡ fs.nodes)) x
        → Post (λ a (w : FileSystem). S a w.nodes) (At P) x
    moved fs p (ok a, w) q = k a fs.nodes w.nodes p q
    moved fs p (err e, w) q = subst P (sym q) p

-- Before the commit all that held of the files still holds, and behind it what holds of them with the
-- file at the path.
pub atomic_write-Triple :
    (lib : StoreLibraries)
    → IsAtomic lib
    → (P P' : Nodes → Type 0) → IsOfFiles P
    → (path : PathBuf) (b : Bytes) → ((n : Nodes) → P n → P' (put path (file b) n))
    → Triple (At P) (atomic_write lib path b) (λ _ fs. P' fs.nodes) (At P)
unfolding atomic_write
atomic_write-Triple lib atomic P P' of_files path b h =
    bind-Triple (lift-Triple (ok_or (parent path) invalid_identifier)) (λ above.
      bind-Triple
        (weaken-Triple (map_error-Triple io (create_dir_all-Triple P of_files above)) (λ w p. p.0)
          (λ a w p. p) (λ w p. p))
        (λ _.
          bind-Triple
            (map_error-Triple io (
              from_each_state P
                (λ f before after.
                  (after ≡ before) × (atomic.target f ≡ path) × (atomic.text f ≡ []))
                (lib.open_atomic path) (atomic.opened path)
                (λ f n. P n × (atomic.target f ≡ path) × (atomic.text f ≡ []))
                (λ f before after p q. (subst P (sym q.0) p, q.1, q.2))))
            (λ f.
              bind-Triple
                (weaken-Triple
                  (map_error-Triple io (
                    from_each_state (λ n. P n × (atomic.target f ≡ path) × (atomic.text f ≡ []))
                      (λ g before after.
                        (after ≡ before)
                        × (atomic.target g ≡ atomic.target f)
                        × (atomic.text g ≡ atomic.text f ++ b))
                      (lib.write_all f b) (atomic.wrote f b)
                      (λ g n. P n × (atomic.target g ≡ path) × (atomic.text g ≡ b))
                      (λ g before after p q.
                        (subst P (sym q.0) p.0, q.1 ∙ p.1, q.2 ∙ ap (λ t. t ++ b) p.2))))
                  (λ w p. p) (λ a w p. p) (λ w p. p.0))
                (λ g.
                  weaken-Triple
                    (map_error-Triple io (
                      from_each_state (λ n. P n × (atomic.target g ≡ path) × (atomic.text g ≡ b))
                        (λ _ before after.
                          after ≡ put (atomic.target g) (file (atomic.text g)) before)
                        (lib.commit g) (atomic.committed g) (λ _ n. P' n)
                        (λ _ before after p q.
                          subst P'
                            (sym (
                              q
                              ∙ ap (λ t. put t (file (atomic.text g)) before) p.1
                              ∙ ap (λ t. put path (file t) before) p.2))
                            (h before p.0))))
                    (λ w p. p) (λ a w p. p) (λ w p. p.0)))))
