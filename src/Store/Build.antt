-- ===== src/Store/Build.antt =====
-- src/store.rs: `build_tree`, which makes a Git tree of a configuration directory. A name that is
-- not valid UTF-8 comes first in the order of the names; it is refused wherever it stands.
pub mod Levels
use deptool.Base.{
  String, ◌<>◌, ℕ, zero, suc, ◌+◌, Bool, true, false, not, ◌&&◌, Option, none, some, List, [], ◌∷◌,
  ◌++◌, Result, ok, err, ◌>>=◌, ◌>>◌, map_err, is_empty, nat_eq, ltb, ◌<?◌, string_ord,
  if◌then◌else◌,
}
use deptool.Types.{Oid, PathBuf}
use deptool.Error.{StoreError, io, git, non_utf8_file_name, invalid_config}
use deptool.Store.Repository.{Repository, git_err}
use deptool.Store.Trees.{find_tree}
use deptool.FileSystem.{FileSystem, DirEntry, IoError}

abbrev pub tree_mode : ℕ
tree_mode = 16384

abbrev io_err : {A : Type 0} → Result IoError A → Result StoreError A
io_err = map_err (λ e. io e.message)

-- `collect::<Result<_, _>>()`
unfoldable pub collect_entries : List (Result IoError DirEntry) → Result StoreError (List DirEntry)
collect_entries [] = ok []
collect_entries (err e ∷ entries) = err (io e.message)
collect_entries (ok e ∷ entries) = do rest ← collect_entries entries; ok (e ∷ rest)

abbrev name_less : Option String → Option String → Bool
name_less none none = false
name_less none (some n) = true
name_less (some m) none = false
name_less (some m) (some n) = m <? n

unfoldable pub insert_by_name : DirEntry → List DirEntry → List DirEntry
insert_by_name e [] = e ∷ []
insert_by_name e (f ∷ fs) =
    let rest = insert_by_name e fs in
    if name_less f.file_name e.file_name then f ∷ rest else e ∷ f ∷ fs

-- `sort_by_key(|e| e.file_name())`
unfoldable pub sort_by_name : List DirEntry → List DirEntry
sort_by_name [] = []
sort_by_name (e ∷ es) = insert_by_name e (sort_by_name es)

abbrev pub Builder : Type 0
Builder = List (String × Oid × ℕ)

abbrev file_mode : Bool → ℕ
file_mode true = 33261
file_mode false = 33188

module _ (R : Repository) (F : FileSystem R) where
  abbrev pub Built : Type 0
  Built = Result StoreError (R.State × Builder)

  -- `tb.insert(name, oid, mode)?`
  unfoldable pub insert_entry : R.State → String → Oid → ℕ → Builder → Built
  insert_entry s name oid mode builder = do
    git_err (R.check_entry s name oid mode)
    ok (s, builder ++ ((name, oid, mode) ∷ []))

  -- A directory below the host level without files is pruned.
  unfoldable pub is_kept : ℕ → R.State → Oid → Result StoreError Bool
  is_kept zero s oid = ok true
  is_kept (suc depth) s oid = do t ← find_tree R s oid; ok (not (is_empty t))

  abbrev insert_if : Bool → R.State → String → Oid → Builder → Built
  insert_if true s name oid builder = insert_entry s name oid tree_mode builder
  insert_if false s name oid builder = ok (s, builder)

  unfoldable pub add_directory : ℕ → String → Builder → R.State × Oid → Built
  add_directory depth name builder (s, oid) = do
    kept ← is_kept depth s oid
    insert_if kept s name oid builder

  unfoldable pub add_file : F.State → R.State → PathBuf → String → Builder → Built
  add_file files s path name builder = do
    contents ← io_err (F.read files path)
    (s', oid) ← git_err (R.write_blob s contents)
    executable ← io_err (F.is_executable files path)
    insert_entry s' name oid (file_mode executable) builder

  abbrev kind_name : Bool → String
  kind_name true = "a symlink"
  kind_name false = "a special file"

  abbrev refused : DirEntry → StoreError
  refused e = invalid_config (
      "'"
      <> (e.path
          <> ("' is "
              <> (kind_name e.entry_is_symlink
                  <> "; a config tree may contain only regular files and directories"))))

  -- One entry, with the walk of a subdirectory given.
  unfoldable pub build_named :
      (PathBuf → R.State → Result StoreError (R.State × Oid))
      → F.State
      → ℕ
      → DirEntry
      → String
      → R.State
      → Builder
      → Built
  build_named walk files depth e name s builder = elim e.entry_is_dir [
    | true ↦ walk e.path s >>= add_directory depth name builder
    | false ↦ elim e.entry_is_file [
      | true ↦ elim (ltb depth 2) [
        | true ↦ ok (s, builder)
        | false ↦ add_file files s e.path name builder
      ]
      | false ↦ err (refused e)
    ]
  ]

  unfoldable pub build_entries :
      (PathBuf → R.State → Result StoreError (R.State × Oid))
      → F.State
      → ℕ
      → List DirEntry
      → R.State
      → Builder
      → Built
  build_entries walk files depth [] s builder = ok (s, builder)
  build_entries walk files depth (e ∷ es) s builder = elim e.file_name [
    | none ↦ err non_utf8_file_name
    | some name ↦ build_named walk files depth e name s builder >>= λ (s', builder').
        build_entries walk files depth es s' builder'
  ]

  -- The walk goes down one level of directories for each unit of fuel.
  unfoldable pub build_tree_recursive :
      ℕ → F.State → PathBuf → ℕ → R.State → Result StoreError (R.State × Oid)
  build_tree_recursive zero files dir depth s =
      err (io "directory is deeper than the file system says")
  build_tree_recursive (suc fuel) files dir depth s = do
    listed ← io_err (F.read_dir files dir)
    entries ← collect_entries listed
    (s', builder) ←
        build_entries (λ path. build_tree_recursive fuel files path (depth + 1)) files depth
          (sort_by_name entries) s []
    git_err (R.write_tree s' builder)

  unfoldable pub build_tree : F.State → PathBuf → R.State → Result StoreError (R.State × Oid)
  build_tree files dir s = build_tree_recursive (suc (F.depth files dir)) files dir 0 s
