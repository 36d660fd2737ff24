-- ===== src/Checkout/Apps.antt =====
-- src/checkout.rs: an app's version directory and its `current` and `previous` links.
-- src/store.rs: `checkout_app` and `make_files_readonly`.
pub mod Rotated
use deptool.Base.{
  String, ◌<>◌, ℕ, zero, suc, Bool, true, false, not, Option, List, [], ◌∷◌, Result, ok, err,
  failed, attempt, map_err, ◌==◌, string_ord, if◌then◌else◌,
}
use deptool.BTreeMap.{BTreeMap}
use deptool.Types.{Oid, Hostname, PathBuf, oid_prefix, join}
use deptool.Error.{
  ApplyError, StoreError, git, io, checkout_failed, display_apply_error, apply_error_of_store,
}
use deptool.Store.Repository.{Repository, git_err}
use deptool.FileSystem.{FileSystem, DirEntry, IoError}
use deptool.Io.{pure, fail, lift, reads, when, expect, with_error, ◌>>=◌, ◌>>◌}
use deptool.Plan.Changes.{AppDiff, add, remove, update}
use deptool.Checkout.Disk.{
  DiskIo, log, with_files, wrapped, create_dir_all, remove_dir_all, remove_file, rename, symlink,
}

pub data CheckoutMode : Type 0 where
  fresh reuse : CheckoutMode

-- Whether the files are checked out, from whether the version directory exists.
abbrev pub needs_checkout : CheckoutMode → Bool → Bool
needs_checkout fresh present = true
needs_checkout reuse present = not present

abbrev pub points_at : {E : Type 0} → Result E PathBuf → String → Bool
points_at (ok target) prefix = target == prefix
points_at (err _) prefix = false

module _ {R : Repository} (F : FileSystem R) where
  abbrev io_error : IoError → ApplyError
  io_error e = apply_error_of_store (StoreError.io e.message)

  -- The entries of one directory, with the walk of a subdirectory given.
  readonly_entries :
      (PathBuf → DiskIo F (Unit {0})) → List (Result IoError DirEntry) → DiskIo F (Unit {0})
  readonly_entries walk [] = pure tt
  readonly_entries walk (err e ∷ es) = fail (failed (io_error e))
  readonly_entries walk (ok e ∷ es) = do
    if e.entry_is_dir
        then walk e.path
        else when e.entry_is_file
            (λ d. with_files F d (wrapped F io_error (F.remove_write_bits e.path d.files)))
    readonly_entries walk es

  pub make_files_readonly : ℕ → PathBuf → DiskIo F (Unit {0})
  unfolding readonly_entries
  make_files_readonly zero dir = fail (failed (io "directory is deeper than the file system says"))
  make_files_readonly (suc fuel) dir = do
    entries ← reads (λ d. F.read_dir d.files dir)
    listed ← lift (attempt (map_err io_error entries))
    readonly_entries (make_files_readonly fuel) listed

  unfoldable pub store_checkout_app :
      R.State → Oid → Hostname → String → PathBuf → DiskIo F (Unit {0})
  unfolding make_files_readonly
  store_checkout_app s commit_oid host app target = do
    commit ← lift (attempt (map_err apply_error_of_store (git_err (R.find_commit s commit_oid))))
    entry ← lift (
        attempt
          (map_err apply_error_of_store (git_err (R.get_path s commit.tree_id (join host app)))))
    _ ← lift (attempt (map_err apply_error_of_store (git_err (R.find_tree s entry.id))))
    (λ d. with_files F d (
        wrapped F (λ e. apply_error_of_store (git e.message))
          (F.checkout_tree s entry.id target d.files)))
    levels ← reads (λ d. F.depth d.files target)
    make_files_readonly (suc levels) target

  unfoldable pub materialize :
      R.State → Oid → Hostname → String → PathBuf → Bool → DiskIo F (Unit {0})
  materialize s commit_oid host app version_dir present = do
    when present (remove_dir_all F version_dir)
    create_dir_all F version_dir
    store_checkout_app s commit_oid host app version_dir

  -- Point `current` at the version, and `previous` at what `current` was.
  unfoldable pub rotate : PathBuf → String → DiskIo F (Unit {0})
  rotate app_dir prefix = do
    let next = join app_dir "next"
    let current = join app_dir "current"
    here ← reads (λ d. F.read_link d.files current)
    when (not (points_at here prefix)) (do
      stale ← reads (λ d. F.occupied d.files next)
      when stale (remove_file F next)
      symlink F prefix next
      deployed ← reads (λ d. F.occupied d.files current)
      when deployed (rename F current (join app_dir "previous"))
      rename F next current)

  unfoldable pub checkout_app :
      R.State → Oid → Hostname → String → PathBuf → CheckoutMode → DiskIo F (Unit {0})
  checkout_app s commit_oid host app apps_dir mode = do
    let prefix = oid_prefix commit_oid
    let app_dir = join apps_dir app
    let version_dir = join app_dir prefix
    present ← reads (λ d. F.exists d.files version_dir)
    when (needs_checkout mode present) (materialize s commit_oid host app version_dir present)
    rotate app_dir prefix

  unfoldable pub remove_app : String → PathBuf → DiskIo F (Unit {0})
  remove_app app apps_dir = do
    present ← reads (λ d. F.exists d.files (join apps_dir app))
    when present (remove_dir_all F (join apps_dir app))

  -- One changed app.
  unfoldable pub checkout_change :
      R.State
      → Option Oid
      → String
      → AppDiff
      → Hostname
      → PathBuf
      → CheckoutMode
      → DiskIo F (Unit {0})
  checkout_change s commit_oid app (add _) host apps_dir mode = do
    log F ("adding app " <> app)
    oid ← expect commit_oid "Add/Update requires a target commit"
    with_error (λ cause. checkout_failed app (display_apply_error cause))
        (checkout_app s oid host app apps_dir mode)
  checkout_change s commit_oid app (update _ _) host apps_dir mode = do
    log F ("updating app " <> app)
    oid ← expect commit_oid "Add/Update requires a target commit"
    with_error (λ cause. checkout_failed app (display_apply_error cause))
        (checkout_app s oid host app apps_dir mode)
  checkout_change s commit_oid app (remove _) host apps_dir mode = do
    log F ("removing app " <> app)
    remove_app app apps_dir

  unfoldable pub checkout :
      R.State
      → Option Oid
      → BTreeMap String AppDiff
      → Hostname
      → PathBuf
      → CheckoutMode
      → DiskIo F (Unit {0})
  checkout s commit_oid [] host apps_dir mode = pure tt
  checkout s commit_oid ((app, change) ∷ diffs) host apps_dir mode = do
    checkout_change s commit_oid app change host apps_dir mode
    checkout s commit_oid diffs host apps_dir mode
