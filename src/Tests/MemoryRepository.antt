-- ===== src/Tests/MemoryRepository.antt =====
-- A small repository in memory that the tests run on. A branch of history is a list of
-- pairs of a commit and one of its ancestors.
use Prim.Native.Char.{Char, code}
use deptool.Base.{
  if◌then◌else◌, nat_eq, String, true, false, Option, none, some, List, [], ◌∷◌, Result, ok, err,
  ◌==◌, ◌&&◌, string_ord, any,
}
use deptool.BTreeMap.{BTreeMap, get, insert, retain}
use deptool.Types.{Oid}
use deptool.Store.Repository.{Repository, GitError, Tree, TreeEntry, Commit, tree, blob, name_is}

pub record Memory : Type 0 where
  pub trees : BTreeMap Oid Tree
  pub commits : BTreeMap Oid Commit
  pub blobs : BTreeMap Oid String
  pub references : BTreeMap String Oid
  pub config : BTreeMap String String
  pub ancestors : List (Oid × Oid)

abbrev missing : GitError
missing = record { is_not_found = true; message = "not found" }

abbrev or_missing {ℓ} : {A : Type ℓ} → Option A → Result GitError A
or_missing none = err missing
or_missing (some a) = ok a

-- The entry of a tree that has the name, for a path of one component.
abbrev entry_named : String → Tree → Option TreeEntry
entry_named path [] = none
entry_named path (e ∷ es) = elim (name_is e.name path) [
  | true ↦ some e
  | false ↦ entry_named path es
]

abbrev entries_of : Option Tree → Tree
entries_of none = []
entries_of (some t) = t

abbrev on_first : Char → List String → List String
on_first c [] = []
on_first c (s ∷ ss) = String.◌∷◌ c s ∷ ss

-- The components of a path.
abbrev components : String → List String
components String.[] = "" ∷ []
components (String.◌∷◌ c s) =
    let rest = components s in if nat_eq (code c) b'/' then "" ∷ rest else on_first c rest

abbrev entry_id : Option TreeEntry → Oid
entry_id none = ""
entry_id (some e) = e.id

abbrev entry_at : BTreeMap Oid Tree → List String → Oid → Option TreeEntry → Option TreeEntry
entry_at trees [] oid found = found
entry_at trees (name ∷ names) oid found =
    let next = entry_named name (entries_of (get oid trees)) in
    entry_at trees names (entry_id next) next

abbrev pub memory_repository : Repository
memory_repository = record {
  State = Memory;
  find_tree = λ m oid. or_missing (get oid m.trees);
  find_commit = λ m oid. or_missing (get oid m.commits);
  find_blob = λ m oid. or_missing (get oid m.blobs);
  find_reference = λ m name. or_missing (get name m.references);
  reference = λ m name oid _. ok (record m { references = insert name oid m.references });
  delete_reference = λ m name. ok (record m {
    references = retain (λ n _. elim (n == name) [ true ↦ false | false ↦ true ]) m.references;
  });
  graph_descendant_of = λ m a b. ok (any (λ (c, d). c == a && d == b) m.ancestors);
  get_path = λ m oid path. or_missing (entry_at m.trees (components path) oid none);
  config_get_string = λ m key. or_missing (get key m.config);
  config_set_string = λ m key value. ok (record m { config = insert key value m.config });
  tree_depth = λ m oid. 2;
  commit = λ m tree_oid parents message. ok (
    record m {
      commits = insert "c2" (record { id = "c2"; tree_id = tree_oid; time = 3 }) m.commits;
    },
    "c2",
  );
  write_blob = λ m content. ok (record m { blobs = insert content content m.blobs }, content);
  check_entry = λ m name oid mode. ok tt;
  write_tree = λ m entries. ok (m, "t9");
  create_pack = λ m oid have. ok oid;
  write_pack = λ m pack. ok m;
  parse_manifest =
      λ content. ok (record { systemd = record { units_enabled = content ∷ [] }; symlinks = [] });
}

abbrev pub directory : String → Oid → TreeEntry
directory name id = record { name = some name; kind = tree; id = id }

abbrev pub file : String → Oid → TreeEntry
file name id = record { name = some name; kind = blob; id = id }

-- Host `web` runs nothing in commit `c0`; in `c1` it runs `app`, which has the unit that its
-- manifest enables.
abbrev pub example : Memory
example = record {
  trees =
      ("4b825dc642cb6eb9a060e54bf8d69288fbee4904", [])
      ∷ ("a1", file "manifest.json" "m1" ∷ directory "systemd" "u1" ∷ [])
      ∷ ("h0", [])
      ∷ ("h1", directory "app" "a1" ∷ [])
      ∷ ("t0", directory "web" "h0" ∷ [])
      ∷ ("t1", directory "web" "h1" ∷ [])
      ∷ ("u1", file "app.service" "b1" ∷ [])
      ∷ [];
  commits =
      ("c0", record { id = "c0"; tree_id = "t0"; time = 1 })
      ∷ ("c1", record { id = "c1"; tree_id = "t1"; time = 2 })
      ∷ [];
  blobs = ("m1", "app.service") ∷ [];
  references = ("refs/remotes/web", "c0") ∷ [];
  config = [];
  ancestors = ("c1", "c0") ∷ [];
}
