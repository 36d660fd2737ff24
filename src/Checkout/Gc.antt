-- ===== src/Checkout/Gc.antt =====
-- src/checkout.rs: the removal of old version directories.
pub mod Kept
use deptool.Base.{
  String, ◌<>◌, false, ◌||◌, List, [], ◌∷◌, Result, ok, err, contains, string_ord, if◌then◌else◌,
}
use deptool.Types.{PathBuf, join}
use deptool.Store.Repository.{Repository}
use deptool.FileSystem.{FileSystem, DirEntry, IoError}
use deptool.Io.{pure, reads, when, ◌>>=◌, ◌>>◌}
use deptool.Checkout.Disk.{DiskIo, log}

module _ {R : Repository} (F : FileSystem R) where
  -- The directory that a link of the app points to, if the link can be read.
  abbrev kept_by : PathBuf → Result IoError PathBuf → List PathBuf → List PathBuf
  kept_by app_dir (ok target) keep = join app_dir target ∷ keep
  kept_by app_dir (err _) keep = keep

  unfoldable pub kept : F.State → PathBuf → List PathBuf
  kept files app_dir =
      kept_by app_dir (F.read_link files (join app_dir "current"))
        (kept_by app_dir (F.read_link files (join app_dir "previous")) [])

  abbrev removal_line : PathBuf → Result IoError (Unit {0}) → String
  removal_line path (ok _) = "gc: removed " <> path
  removal_line path (err e) = "gc: failed to remove " <> (path <> (": " <> e.message))

  unfoldable pub remove_old : PathBuf → DiskIo F (Unit {0})
  remove_old path d =
      let (result, files) = F.remove_dir_all path d.files in
      log F (removal_line path result) (record d { files = files })

  unfoldable pub gc_entries : List PathBuf → List (Result IoError DirEntry) → DiskIo F (Unit {0})
  gc_entries keep [] = pure tt
  gc_entries keep (err _ ∷ entries) = gc_entries keep entries
  gc_entries keep (ok e ∷ entries) = do
    link ← reads (λ d. F.is_symlink d.files e.path)
    directory ← reads (λ d. F.is_dir d.files e.path)
    when (if link || contains keep e.path then false else directory) (remove_old e.path)
    gc_entries keep entries

  unfoldable pub gc_app_dir : PathBuf → DiskIo F (Unit {0})
  gc_app_dir app_dir = do
    keep ← reads (λ d. kept d.files app_dir)
    listing ← reads (λ d. F.read_dir d.files app_dir)
    elim listing [
      | err e ↦ log F ("gc: failed to read " <> (app_dir <> (": " <> e.message)))
      | ok entries ↦ gc_entries keep entries
    ]

  unfoldable pub gc_apps : PathBuf → List (Result IoError DirEntry) → DiskIo F (Unit {0})
  gc_apps apps_dir [] = pure tt
  gc_apps apps_dir (err e ∷ entries) = do
    log F ("gc: entry error in " <> (apps_dir <> (": " <> e.message)))
    gc_apps apps_dir entries
  gc_apps apps_dir (ok e ∷ entries) = do
    directory ← reads (λ d. F.is_dir d.files e.path)
    when directory (gc_app_dir e.path)
    gc_apps apps_dir entries

  unfoldable pub gc_old_checkouts : PathBuf → DiskIo F (Unit {0})
  gc_old_checkouts apps_dir = do
    listing ← reads (λ d. F.read_dir d.files apps_dir)
    elim listing [
      | err e ↦ log F ("gc: failed to read " <> (apps_dir <> (": " <> e.message)))
      | ok entries ↦ gc_apps apps_dir entries
    ]
