-- ===== src/Checkout/Links.antt =====
-- src/checkout.rs: the links that deptool manages in a directory, such as the unit files of systemd.
pub mod Kept
pub mod Found
pub mod Removed
pub mod Reconciled
use deptool.Base.{
  String, ◌<>◌, ℕ, zero, suc, Bool, true, false, Option, none, some, List, [], ◌∷◌, Result, ok, err,
  failed, panicked, attempt, map_err, ◌==◌, not, string_ord, if◌then◌else◌, length,
  ◌>>=◌ as and_then,
}
use deptool.BTreeMap.{BTreeMap, get, insert, contains_key}
use deptool.Types.{PathBuf, join, components, strip_prefix, starts_with_path, parent}
use deptool.Error.{ApplyError, symlink_failed, io}
use deptool.Store.Repository.{Repository}
use deptool.FileSystem.{FileSystem, DirEntry, IoError, ErrorKind, missing}
use deptool.Io.{assert_io, pure, fail, lift_reads, reads, when, expect, ◌>>=◌, ◌>>◌}
use deptool.Checkout.Disk.{DiskIo, io_failed, create_dir_all, remove_file, set_permissions, symlink}

-- The second component below the directory of the apps; the first one names the app.
abbrev second_is_current : List String → Bool
second_is_current (app ∷ second ∷ parts) = second == "current"
second_is_current _ = false

unfoldable pub points_through_current : PathBuf → PathBuf → Bool
points_through_current apps_dir target = elim (strip_prefix target apps_dir) [
  | none ↦ false
  | some parts ↦ second_is_current parts
]

abbrev is_missing : ErrorKind → Bool
is_missing missing = true
is_missing _ = false

abbrev pub Links : Type 0
Links = BTreeMap String PathBuf

-- Whether the link is to be written, from what the directory has.
abbrev pub needs_update : Option PathBuf → PathBuf → Bool
needs_update none desired_target = true
needs_update (some actual_target) desired_target = not (actual_target == desired_target)

module _ {R : Repository} (F : FileSystem R) where
  -- A directory that does not exist has no listing.
  unfoldable pub read_dir_if_exists :
      F.State → PathBuf → Result ApplyError (Option (List (Result IoError DirEntry)))
  read_dir_if_exists files path = elim (F.read_dir files path) [
    | ok entries ↦ ok (some entries)
    | err e ↦ if is_missing e.kind then ok none else err (io_failed "read directory" path e)
  ]

  unfoldable pub read_link : F.State → PathBuf → Result ApplyError PathBuf
  read_link files path = map_err (io_failed "read symlink" path) (F.read_link files path)

  -- A link whose target goes through the `current` link of an app is ours.
  unfoldable pub note_link : PathBuf → String → DirEntry → PathBuf → Links → Result ApplyError Links
  note_link apps_dir prefix entry target managed =
      if points_through_current apps_dir target
      then elim entry.file_name [
        | none ↦ err (symlink_failed entry.path "file name is not valid UTF-8")
        | some name ↦ ok (insert (prefix <> name) target managed)
      ]
      else ok managed

  -- A directory whose name is not valid UTF-8 cannot hold our links.
  abbrev walk_named :
      (PathBuf → String → Links → Result ApplyError Links)
      → String
      → DirEntry
      → Links
      → Result ApplyError Links
  walk_named walk prefix entry managed = elim entry.file_name [
    | none ↦ ok managed
    | some name ↦ walk entry.path (prefix <> (name <> "/")) managed
  ]

  -- One entry, with the walk of a subdirectory given.
  unfoldable pub collect_entry :
      (PathBuf → String → Links → Result ApplyError Links)
      → F.State
      → PathBuf
      → String
      → DirEntry
      → Links
      → Result ApplyError Links
  collect_entry walk files apps_dir prefix entry managed = elim (F.is_symlink files entry.path) [
    | true ↦
        and_then (read_link files entry.path)
          λ target. note_link apps_dir prefix entry target managed
    | false ↦ if F.is_dir files entry.path then walk_named walk prefix entry managed else ok managed
  ]

  unfoldable pub collect_entries :
      (PathBuf → String → Links → Result ApplyError Links)
      → F.State
      → PathBuf
      → PathBuf
      → String
      → List (Result IoError DirEntry)
      → Links
      → Result ApplyError Links
  collect_entries walk files apps_dir dir prefix [] managed = ok managed
  collect_entries walk files apps_dir dir prefix (err e ∷ entries) managed =
      err (io_failed "read directory" dir e)
  collect_entries walk files apps_dir dir prefix (ok entry ∷ entries) managed =
      and_then (collect_entry walk files apps_dir prefix entry managed)
        λ managed'. collect_entries walk files apps_dir dir prefix entries managed'

  unfoldable pub collect_into :
      ℕ → F.State → PathBuf → PathBuf → String → Links → Result ApplyError Links
  collect_into zero files apps_dir dir prefix managed =
      err (io "directory is deeper than the file system says")
  collect_into (suc fuel) files apps_dir dir prefix managed =
      and_then (read_dir_if_exists files dir) λ listing. elim listing [
        | none ↦ ok managed
        | some entries ↦
            collect_entries (collect_into fuel files apps_dir) files apps_dir dir prefix entries
              managed
      ]

  unfoldable pub collect_managed_symlinks : F.State → PathBuf → PathBuf → Result ApplyError Links
  collect_managed_symlinks files apps_dir dir =
      collect_into (suc (F.depth files dir)) files apps_dir dir "" []

  -- The loop of `create_managed_dir`, from a directory up. A level is one component shorter than
  -- the one before it.
  unfoldable pub open_levels : ℕ → PathBuf → PathBuf → DiskIo F (Unit {0})
  open_levels zero stop level = fail (panicked "a path has more levels than components")
  open_levels (suc fuel) stop level = do
    set_permissions F level
    elim (level == stop) [
      | true ↦ pure tt
      | false ↦ expect (parent level) "a dir under stop has a parent" >>= λ above.
          open_levels fuel stop above
    ]

  unfoldable pub create_managed_dir : PathBuf → PathBuf → DiskIo F (Unit {0})
  create_managed_dir stop dir = do
    assert_io (starts_with_path dir stop) "managed dir must be under the managed root"
    create_dir_all F dir
    open_levels (suc (length (components dir))) stop dir

  -- Whether `fs::remove_dir` succeeded, which it does only on an empty directory.

  unfoldable pub try_remove_dir : PathBuf → DiskIo F Bool
  try_remove_dir path d =
      let (removed, files) = F.remove_dir path d.files in
      (ok (elim removed [ ok _ ↦ true | err _ ↦ false ]), record d { files = files })

  -- The loop of `prune_empty_dirs`.
  unfoldable pub prune_levels : ℕ → PathBuf → PathBuf → DiskIo F (Unit {0})
  prune_levels zero stop level = fail (panicked "a path has more levels than components")
  prune_levels (suc fuel) stop level = elim (level == stop) [
    | true ↦ pure tt
    | false ↦ do
      removed ← try_remove_dir level
      elim removed [
        | false ↦ pure tt
        | true ↦ expect (parent level) "a dir under stop has a parent" >>= λ above.
            prune_levels fuel stop above
      ]
  ]

  unfoldable pub prune_empty_dirs : PathBuf → PathBuf → DiskIo F (Unit {0})
  prune_empty_dirs stop dir = do
    assert_io (starts_with_path dir stop) "prune walks only under the managed root"
    prune_levels (suc (length (components dir))) stop dir

  unfoldable pub remove_link : PathBuf → String → DiskIo F (Unit {0})
  remove_link target_dir name = do
    let link_path = join target_dir name
    remove_file F link_path
    above ← expect (parent link_path) "a link path has a parent"
    prune_empty_dirs target_dir above

  unfoldable pub write_link : PathBuf → String → PathBuf → DiskIo F (Unit {0})
  write_link target_dir name desired_target = do
    let link_path = join target_dir name
    above ← expect (parent link_path) "a link path has a parent"
    create_managed_dir target_dir above
    present ← reads (λ d. if F.exists d.files link_path then true else F.occupied d.files link_path)
    when present (remove_file F link_path)
    symlink F desired_target link_path

  -- The links that are no longer desired.
  unfoldable pub remove_links : Links → PathBuf → Links → DiskIo F (Unit {0})
  remove_links desired target_dir [] = pure tt
  remove_links desired target_dir ((name, _) ∷ actual) = do
    when (not (contains_key name desired)) (remove_link target_dir name)
    remove_links desired target_dir actual

  unfoldable pub write_links : Links → PathBuf → Links → DiskIo F (Unit {0})
  write_links actual target_dir [] = pure tt
  write_links actual target_dir ((name, desired_target) ∷ desired) = do
    when (needs_update (get name actual) desired_target) (write_link target_dir name desired_target)
    write_links actual target_dir desired

  unfoldable pub reconcile_managed_symlinks : Links → PathBuf → PathBuf → DiskIo F (Unit {0})
  reconcile_managed_symlinks desired apps_dir target_dir = do
    actual ← lift_reads (λ d. attempt (collect_managed_symlinks d.files apps_dir target_dir))
    remove_links desired target_dir actual
    write_links actual target_dir desired
