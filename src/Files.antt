-- ===== src/Files.antt =====
-- The parts of `std::fs` and `std::path` that the material store calls. A path is its components, the
-- innermost first; file names are UTF-8. Each call may fail: the outside decides by the next fault.
pub mod Lookup
pub mod Calls
pub mod Names
use hap_resigner.Prelude.{
  ℕ, Bool, true, false, not, ◌&&◌, Option, none, some, List, [], ◌∷◌, ◌++◌, if◌then◌else◌, bytes_eq,
  text_le, Result, ok, err, is_some, Bytes, Text, codes,
}
use hap_resigner.Effect.{Effect, pure, lift, ◌>>=◌, ◌>>◌}

pub data IoError : Type 0 where
  not_found : IoError
  io_failed : Text → IoError

abbrev pub PathBuf : Type 0
PathBuf = List Text

pub data Node : Type 0 where
  file : Bytes → Node
  directory : Node

abbrev pub Nodes : Type 0
Nodes = List (PathBuf × Node)

pub record FileSystem : Type 0 where
  pub nodes : Nodes
  pub faults : List (Option IoError)

unfoldable pub path_eq : PathBuf → PathBuf → Bool
path_eq [] [] = true
path_eq [] (d ∷ q) = false
path_eq (c ∷ p) [] = false
path_eq (c ∷ p) (d ∷ q) = bytes_eq c d && path_eq p q

unfoldable pub lookup : PathBuf → Nodes → Option Node
lookup p [] = none
lookup p ((q, node) ∷ rest) = let later = lookup p rest in if path_eq p q then some node else later

unfoldable pub put : PathBuf → Node → Nodes → Nodes
put p node [] = (p, node) ∷ []
put p node ((q, old) ∷ rest) =
    let later = put p node rest in if path_eq p q then (q, node) ∷ rest else (q, old) ∷ later

unfoldable pub delete : PathBuf → Nodes → Nodes
delete p [] = []
delete p ((q, node) ∷ rest) =
    let later = delete p rest in if path_eq p q then later else (q, node) ∷ later

abbrev pub as_file : Option Node → Option Bytes
as_file none = none
as_file (some directory) = none
as_file (some (file b)) = some b

-- What a reader finds at a path, if it is a file.
unfoldable pub contents : PathBuf → Nodes → Option Bytes
contents p nodes = as_file (lookup p nodes)

abbrev pub Io : Type 0 → Type 0
Io A = Effect FileSystem IoError A

unfoldable pub faulty : {A : Type 0} → (Nodes → Result IoError A × Nodes) → Io A
faulty {A = A} act fs = on_fault fs.faults
  where
    finish : List (Option IoError) → Result IoError A × Nodes → Result IoError A × FileSystem
    finish later (r, nodes) = (r, record { nodes = nodes; faults = later })

    on_fault : List (Option IoError) → Result IoError A × FileSystem
    on_fault [] = finish [] (act fs.nodes)
    on_fault (none ∷ later) = finish later (act fs.nodes)
    on_fault (some e ∷ later) = (err e, record { nodes = fs.nodes; faults = later })

abbrev pub read_node : Option Node → Result IoError Bytes
read_node none = err not_found
read_node (some directory) = err (io_failed (codes "is a directory"))
read_node (some (file b)) = ok b

-- `fs::read`.
unfoldable pub read : PathBuf → Io Bytes
read p = faulty (λ nodes. (read_node (lookup p nodes), nodes))

-- `Path::is_file` and `Path::exists`, which an error answers with no.
unfoldable pub query : {E : Type 0} → (Option Node → Bool) → PathBuf → Effect FileSystem E Bool
query {E = E} test p fs = no_error (faulty (λ nodes. (ok (test (lookup p nodes)), nodes)) fs)
  where
    no_error : Result IoError Bool × FileSystem → Result E Bool × FileSystem
    no_error (ok b, after) = (ok b, after)
    no_error (err e, after) = (ok false, after)

unfoldable pub is_file : {E : Type 0} → PathBuf → Effect FileSystem E Bool
is_file = query (λ node. is_some (as_file node))

unfoldable pub exists : {E : Type 0} → PathBuf → Effect FileSystem E Bool
exists = query (λ node. is_some node)

unfoldable pub children : PathBuf → Nodes → List PathBuf
children p [] = []
children p (([], node) ∷ rest) = children p rest
children p ((c ∷ q, node) ∷ rest) =
    let later = children p rest in if path_eq p q then (c ∷ q) ∷ later else later

abbrev pub list_node : PathBuf → Option Node → Nodes → Result IoError (List PathBuf)
list_node p none nodes = err not_found
list_node p (some (file b)) nodes = err (io_failed (codes "not a directory"))
list_node p (some directory) nodes = ok (children p nodes)

-- `fs::read_dir`, and one `entry?` of its iterator.
unfoldable pub read_dir : PathBuf → Io (List PathBuf)
read_dir p = faulty (λ nodes. (list_node p (lookup p nodes) nodes, nodes))

unfoldable pub next_entry : PathBuf → Io PathBuf
next_entry p = faulty (λ nodes. (ok p, nodes))

abbrev pub remove_node : PathBuf → Option Node → Nodes → Result IoError (Unit {0}) × Nodes
remove_node p none nodes = (err not_found, nodes)
remove_node p (some directory) nodes = (err (io_failed (codes "is a directory")), nodes)
remove_node p (some (file b)) nodes = (ok tt, delete p nodes)

-- `fs::remove_file`.
unfoldable pub remove_file : PathBuf → Io (Unit {0})
remove_file p = faulty (λ nodes. remove_node p (lookup p nodes) nodes)

abbrev pub make_node : PathBuf → Option Node → Nodes → Result IoError (Unit {0}) × Nodes
make_node p none nodes = (ok tt, put p directory nodes)
make_node p (some directory) nodes = (ok tt, nodes)
make_node p (some (file b)) nodes = (err (io_failed (codes "file exists")), nodes)

-- `fs::create_dir_all`.
unfoldable pub create_dir_all : PathBuf → Io (Unit {0})
create_dir_all [] = pure tt
create_dir_all (c ∷ p) =
    create_dir_all p >> faulty (λ nodes. make_node (c ∷ p) (lookup (c ∷ p) nodes) nodes)

-- The order of `PathBuf::cmp`: component by component from the root.
unfoldable pub components_le : List Text → List Text → Bool
components_le [] ys = true
components_le (x ∷ xs) [] = false
components_le (x ∷ xs) (y ∷ ys) =
    let rest = components_le xs ys in if bytes_eq x y then rest else text_le x y

unfoldable pub reverse : PathBuf → PathBuf
reverse [] = []
reverse (c ∷ p) = reverse p ++ (c ∷ [])

unfoldable pub path_le : PathBuf → PathBuf → Bool
path_le p q = components_le (reverse p) (reverse q)
