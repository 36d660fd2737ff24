-- ===== src/Store/Trees.antt =====
-- src/store.rs: the trees of hosts and apps, the files of an app's subdirectory, its manifest.
pub mod Entries
use deptool.Base.{
  ℕ, zero, suc, String, ◌<>◌, Option, none, some, [], ◌∷◌, Result, ok, err, ◌>>=◌, map_err,
  string_ord,
}
use deptool.BTreeMap.{BTreeMap, insert}
use deptool.BTreeMap.Set.{BTreeSet, add, collect}
use deptool.Types.{Oid, Hostname}
use deptool.Error.{StoreError, git, json, non_utf8_file_name}
use deptool.Store.Repository.{
  Repository, Tree, ObjectType, tree, blob, other, Manifest, git_err, get_name,
}

-- Git's well-known empty tree oid.
abbrev pub empty_tree_oid : Oid
empty_tree_oid = "4b825dc642cb6eb9a060e54bf8d69288fbee4904"

-- The body of the loop of `tree_entries`, on an entry's kind, name and id.
abbrev pub note_subtree :
    ObjectType → Option String → Oid → BTreeMap String Oid → BTreeMap String Oid
note_subtree tree none oid entries = entries
note_subtree tree (some name) oid entries = insert name oid entries
note_subtree blob name oid entries = entries
note_subtree other name oid entries = entries

unfoldable pub entries_loop : Tree → BTreeMap String Oid → BTreeMap String Oid
entries_loop [] entries = entries
entries_loop (e ∷ es) entries = entries_loop es (note_subtree e.kind e.name e.id entries)

-- The subtrees of a tree, one level deep.
unfoldable pub tree_entries : Tree → BTreeMap String Oid
unfolding entries_loop
tree_entries t = entries_loop t []

abbrev pub default_manifest : Manifest
default_manifest = record { systemd = record { units_enabled = [] }; symlinks = [] }

module _ (R : Repository) where
  open R use {State}

  -- `find_tree(oid)?`
  unfoldable pub find_tree : State → Oid → Result StoreError Tree
  find_tree s oid = git_err (R.find_tree s oid)

  unfoldable pub host_trees : State → Oid → Result StoreError (BTreeMap Hostname Oid)
  host_trees s tree_oid = do t ← find_tree s tree_oid; ok (tree_entries t)

  unfoldable pub get_host_apps : State → Tree → Hostname → Result StoreError (BTreeMap String Oid)
  get_host_apps s config_tree host = elim (get_name config_tree host) [
    | none ↦ ok []
    | some e ↦ do t ← find_tree s e.id; ok (tree_entries t)
  ]

  -- The entries of one level, with the walk of a subtree given.
  collect_level :
      (Oid → String → BTreeSet String → Result StoreError (BTreeSet String))
      → Tree
      → String
      → BTreeSet String
      → Result StoreError (BTreeSet String)
  collect_level walk [] prefix names = ok names
  collect_level walk (e ∷ es) prefix names = elim e.name [
    | none ↦ err non_utf8_file_name
    | some name ↦ elim e.kind [
      | tree ↦ do
        names' ← walk e.id (prefix <> (name <> "/")) names
        collect_level walk es prefix names'
      | blob ↦ collect_level walk es prefix (add (prefix <> name) names)
      | other ↦ collect_level walk es prefix names
    ]
  ]

  -- The walk goes down one level of directories for each unit of fuel.
  pub collect_blobs :
      ℕ → State → Tree → String → BTreeSet String → Result StoreError (BTreeSet String)
  collect_blobs zero s t prefix names = err (git "tree is deeper than the repository says")
  collect_blobs (suc fuel) s t prefix names =
      collect_level (λ oid p ns. do t' ← find_tree s oid; collect_blobs fuel s t' p ns) t prefix
        names

  unfoldable pub subdir_entries : State → Oid → String → Result StoreError (BTreeSet String)
  unfolding collect_blobs collect_level
  subdir_entries s app_tree_oid subdir = do
    t ← find_tree s app_tree_oid
    elim (get_name t subdir) [
      | none ↦ ok []
      | some entry ↦ do
        subtree ← find_tree s entry.id
        collect_blobs (suc (R.tree_depth s entry.id)) s subtree "" []
    ]

  unfoldable pub subtree_oid : State → Oid → String → Result StoreError (Option Oid)
  subtree_oid s app_tree_oid subdir = do
    t ← find_tree s app_tree_oid
    elim (get_name t subdir) [ none ↦ ok none | some e ↦ ok (some e.id) ]

  unfoldable pub read_manifest : State → Oid → Result StoreError Manifest
  read_manifest s app_tree_oid = do
    t ← find_tree s app_tree_oid
    elim (get_name t "manifest.json") [
      | none ↦ ok default_manifest
      | some entry ↦ do
        content ← git_err (R.find_blob s entry.id)
        map_err json (R.parse_manifest content)
    ]

  unfoldable pub enabled_units : State → Oid → Result StoreError (BTreeSet String)
  enabled_units s app_tree_oid = do
    manifest ← read_manifest s app_tree_oid
    ok (collect manifest.systemd.units_enabled)
