-- ===== src/Store/Repository.antt =====
-- What the store calls of libgit2 (`git2::Repository`) and of serde_json, as an interface. The state
-- holds the objects, the references and the configuration. Neither library is under the source
-- tree, so nothing is assumed of these operations but what a theorem names as a hypothesis.
use deptool.Base.{
  String, ℕ, Bool, false, Option, none, some, List, [], ◌∷◌, Result, map_err, ◌==◌, string_ord,
  if◌then◌else◌,
}
use deptool.BTreeMap.{BTreeMap}
use deptool.Types.{Oid}
use deptool.Error.{StoreError, git}

-- `git2::Error`: whether its code is `NotFound`, and its text.
pub record GitError : Type 0 where
  pub is_not_found : Bool
  pub message : String

pub data ObjectType : Type 0 where
  tree blob other : ObjectType

-- `git2::TreeEntry`; the name is `None` if it is not valid UTF-8.
pub record TreeEntry : Type 0 where
  pub name : Option String
  pub kind : ObjectType
  pub id : Oid

abbrev pub Tree : Type 0
Tree = List TreeEntry

-- `git2::Commit`, with its committer time in seconds.
pub record Commit : Type 0 where
  pub id : Oid
  pub tree_id : Oid
  pub time : ℕ

-- `Manifest` and `SystemdConfig` of src/store.rs.
pub record SystemdConfig : Type 0 where
  pub units_enabled : List String

pub record Manifest : Type 0 where
  pub systemd : SystemdConfig
  pub symlinks : BTreeMap String String

pub record Repository : Type 1 where
  pub State : Type 0
  pub find_tree : State → Oid → Result GitError Tree
  pub find_commit : State → Oid → Result GitError Commit
  pub find_blob : State → Oid → Result GitError String
  -- the object that a reference points to, with tags peeled; `find_commit` says if it is a commit
  pub find_reference : State → String → Result GitError Oid
  pub reference : State → String → Oid → String → Result GitError State
  pub delete_reference : State → String → Result GitError State
  pub graph_descendant_of : State → Oid → Oid → Result GitError Bool
  -- `tree.get_path(path)` of the tree with this id
  pub get_path : State → Oid → String → Result GitError TreeEntry
  pub config_get_string : State → String → Result GitError String
  pub config_set_string : State → String → String → Result GitError State
  -- the levels of directories below a tree
  pub tree_depth : State → Oid → ℕ
  -- `commit(None, .., message, tree, parents)`
  pub commit : State → Oid → List Oid → String → Result GitError (State × Oid)
  -- `repo.blob(contents)`
  pub write_blob : State → String → Result GitError (State × Oid)
  -- what `TreeBuilder::insert` says of an entry, and `TreeBuilder::write` of all of them
  pub check_entry : State → String → Oid → ℕ → Result GitError (Unit {0})
  pub write_tree : State → List (String × Oid × ℕ) → Result GitError (State × Oid)
  -- packfiles, carried in base64
  pub create_pack : State → Oid → Option Oid → Result GitError String
  pub write_pack : State → String → Result GitError State
  -- `serde_json::from_slice` at `Manifest`
  pub parse_manifest : String → Result String Manifest

-- `?` on a `git2::Error` in a function that returns a `StoreError`.
abbrev pub git_err {ℓ} : {A : Type ℓ} → Result GitError A → Result StoreError A
git_err = map_err (λ e. git e.message)

-- Whether an entry's name is the given one.
abbrev pub name_is : Option String → String → Bool
name_is none n = false
name_is (some m) n = m == n

-- `tree.get_name(name)`
unfoldable pub get_name : Tree → String → Option TreeEntry
get_name [] n = none
get_name (e ∷ es) n = if name_is e.name n then some e else get_name es n
