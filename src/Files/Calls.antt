-- ===== src/Files/Calls.antt =====
-- What each call of the file system leaves behind, on success and on an error.
use hap_resigner.Prelude.{
  ◌≡◌, refl, sym, Bool, true, Option, none, some, List, [], ◌∷◌, Result, ok, err, is_some,
}
use hap_resigner.Effect.{Triple, Post, bind-Triple, pure-Triple, weaken-Triple}
use hap_resigner.Files.{
  IoError, PathBuf, Node, file, directory, Nodes, FileSystem, lookup, delete, as_file, contents,
  faulty, read_node, read, query, is_file, exists, children, list_node, read_dir, next_entry,
  remove_node, remove_file, make_node, create_dir_all,
}
use hap_resigner.Files.Lookup.{contents-make}

abbrev pub At : (Nodes → Type 0) → FileSystem → Type 0
At P fs = P fs.nodes

-- A property that only speaks of the files.
abbrev pub IsOfFiles : (Nodes → Type 0) → Type 0
IsOfFiles P = (n n' : Nodes) → ((q : PathBuf) → contents q n ≡ contents q n') → P n → P n'

module _ {A : Type 0} where
  pub faulty-Triple :
      (P : Nodes → Type 0) (Q : A → Nodes → Type 0) (act : Nodes → Result IoError A × Nodes)
      → ((n : Nodes) → P n → Post Q P (act n))
      → Triple (At P) (faulty act) (λ a fs. Q a fs.nodes) (At P)
  unfolding faulty
  faulty-Triple P Q act h = record { run = λ fs p. by_fault fs.faults fs.nodes p }
    where
      finished :
          (later : List (Option IoError)) (x : Result IoError A × Nodes)
          → Post Q P x
          → Post
              (λ a (fs : FileSystem). Q a fs.nodes)
              (At P)
              (x.0, record { nodes = x.1; faults = later })
      finished later (ok a, n) k = k
      finished later (err e, n) k = k

      by_fault :
          (faults : List (Option IoError)) (nodes : Nodes)
          → P nodes
          → Post
              (λ a (fs : FileSystem). Q a fs.nodes)
              (At P)
              (faulty act (record { nodes = nodes; faults = faults }))
      by_fault [] nodes p = finished [] (act nodes) (h nodes p)
      by_fault (none ∷ later) nodes p = finished later (act nodes) (h nodes p)
      by_fault (some e ∷ later) nodes p = p

module _ (P : Nodes → Type 0) where
  pub read-Triple :
      (p : PathBuf)
      → Triple (At P) (read p) (λ b fs. P fs.nodes × (contents p fs.nodes ≡ some b)) (At P)
  unfolding read contents
  read-Triple p =
      faulty-Triple P (λ b n. P n × (contents p n ≡ some b)) _
        (λ n k. on_node n k (lookup p n) refl)
    where
      on_node :
          (n : Nodes)
          → P n
          → (node : Option Node) → lookup p n ≡ node
          → Post (λ b m. P m × (as_file (lookup p m) ≡ some b)) P (read_node node, n)
      on_node n k none e = k
      on_node n k (some directory) e = k
      on_node n k (some (file b)) e = (k, rw e)

  pub read_dir-Triple :
      (p : PathBuf)
      → Triple (At P) (read_dir p) (λ ps fs. P fs.nodes × (ps ≡ children p fs.nodes)) (At P)
  unfolding read_dir
  read_dir-Triple p =
      faulty-Triple P (λ ps n. P n × (ps ≡ children p n)) _ (λ n k. on_node n k (lookup p n))
    where
      on_node :
          (n : Nodes)
          → P n
          → (node : Option Node)
          → Post (λ ps m. P m × (ps ≡ children p m)) P (list_node p node n, n)
      on_node n k none = k
      on_node n k (some directory) = (k, refl)
      on_node n k (some (file b)) = k

  pub next_entry-Triple :
      (p : PathBuf) → Triple (At P) (next_entry p) (λ q fs. P fs.nodes × (q ≡ p)) (At P)
  unfolding next_entry
  next_entry-Triple p = faulty-Triple P (λ q n. P n × (q ≡ p)) _ (λ n k. (k, refl))

  pub remove_file-Triple :
      (P' : Nodes → Type 0) (p : PathBuf)
      → ((n : Nodes) → P n → P' (delete p n))
      → Triple (At P) (remove_file p) (λ _ fs. P' fs.nodes) (At P)
  unfolding remove_file
  remove_file-Triple P' p h = faulty-Triple P (λ _ n. P' n) _ (λ n k. on_node n k (lookup p n))
    where
      on_node :
          (n : Nodes)
          → P n
          → (node : Option Node) → Post (λ (_ : Unit {0}) m. P' m) P (remove_node p node n)
      on_node n k none = k
      on_node n k (some directory) = k
      on_node n k (some (file b)) = h n k

  pub create_dir_all-Triple :
      IsOfFiles P → (p : PathBuf) → Triple (At P) (create_dir_all p) (λ _ fs. P fs.nodes) (At P)
  unfolding create_dir_all
  create_dir_all-Triple of_files [] = pure-Triple tt (λ w k. k)
  create_dir_all-Triple of_files (c ∷ p) =
      bind-Triple (create_dir_all-Triple of_files p)
        (λ _. faulty-Triple P (λ _ n. P n) _ (λ n k. on_node n k (lookup (c ∷ p) n) refl))
    where
      on_node :
          (n : Nodes)
          → P n
          → (node : Option Node) → lookup (c ∷ p) n ≡ node
          → Post (λ (_ : Unit {0}) m. P m) P (make_node (c ∷ p) node n)
      on_node n k none e = of_files n _ (λ q. sym (contents-make q (c ∷ p) n e)) k
      on_node n k (some directory) e = k
      on_node n k (some (file b)) e = k

  -- A test answers yes only where its node passes.
  query-Triple :
      {E : Type 0} (test : Option Node → Bool) (p : PathBuf)
      → Triple {E = E}
          (At P)
          (query test p)
          (λ b fs. P fs.nodes × (b ≡ true → test (lookup p fs.nodes) ≡ true))
          (At P)
  unfolding query faulty
  query-Triple {E = E} test p = record { run = λ fs k. by_fault fs.faults fs.nodes k }
    where
      by_fault :
          (faults : List (Option IoError)) (nodes : Nodes)
          → P nodes
          → Post {E = E}
              (λ b (fs : FileSystem). P fs.nodes × (b ≡ true → test (lookup p fs.nodes) ≡ true))
              (At P)
              (query test p (record { nodes = nodes; faults = faults }))
      by_fault [] nodes k = (k, λ e. e)
      by_fault (none ∷ later) nodes k = (k, λ e. e)
      by_fault (some x ∷ later) nodes k = (k, λ e. cc)

  pub is_file-Triple :
      {E : Type 0} (p : PathBuf)
      → Triple {E = E}
          (At P)
          (is_file p)
          (λ b fs. P fs.nodes × (b ≡ true → is_some (contents p fs.nodes) ≡ true))
          (At P)
  unfolding is_file contents
  is_file-Triple p = query-Triple (λ node. is_some (as_file node)) p

  pub exists-Triple :
      {E : Type 0} (p : PathBuf) → Triple {E = E} (At P) (exists p) (λ b fs. P fs.nodes) (At P)
  unfolding exists
  exists-Triple p =
      weaken-Triple (query-Triple (λ node. is_some node) p) (λ w k. k) (λ b w k. k.0) (λ w k. k)
