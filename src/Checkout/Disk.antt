-- ===== src/Checkout/Disk.antt =====
-- src/checkout.rs: the wrappers of `std::fs` that put the operation and the path in the error. The
-- state is the file system with the lines that were logged.
use deptool.Base.{String, ◌<>◌, List, [], ◌∷◌, ◌++◌, Result, Fault, failed, map_err}
use deptool.Types.{PathBuf}
use deptool.Error.{ApplyError, io, remove_failed, symlink_failed}
use deptool.Store.Repository.{Repository}
use deptool.FileSystem.{FileSystem, IoError}
use deptool.Io.{Io, modify}

-- `io_failed(operation, path)`
unfoldable pub io_failed : String → PathBuf → IoError → ApplyError
io_failed operation path e =
    io ("failed to " <> (operation <> (" " <> (path <> (": " <> e.message)))))

unfoldable pub removal_failed : PathBuf → IoError → ApplyError
removal_failed path e = remove_failed path e.message

module _ {R : Repository} (F : FileSystem R) where
  pub record Disk : Type 0 where
    pub files : F.State
    pub lines : List String

  -- An operation that returns a `Result<T, ApplyError>` and may panic.
  abbrev pub DiskIo : Type 0 → Type 0
  DiskIo A = Io Disk (Fault ApplyError) A

  unfoldable pub log : String → DiskIo (Unit {0})
  log line = modify (λ d. record d { lines = d.lines ++ (line ∷ []) })

  abbrev pub with_files :
      {A : Type 0}
      → Disk
      → Result (Fault ApplyError) A × F.State
      → Result (Fault ApplyError) A × Disk
  with_files d (r, files) = (r, record d { files = files })

  abbrev pub wrapped :
      {A E : Type 0}
      → (E → ApplyError)
      → Result E A × F.State
      → Result (Fault ApplyError) A × F.State
  wrapped f (r, files) = (map_err (λ e. failed (f e)) r, files)

  unfoldable pub create_dir_all : PathBuf → DiskIo (Unit {0})
  create_dir_all path d =
      with_files d (wrapped (io_failed "create directory" path) (F.create_dir_all path d.files))

  unfoldable pub remove_dir_all : PathBuf → DiskIo (Unit {0})
  remove_dir_all path d =
      with_files d (wrapped (removal_failed path) (F.remove_dir_all path d.files))

  unfoldable pub remove_file : PathBuf → DiskIo (Unit {0})
  remove_file path d = with_files d (wrapped (removal_failed path) (F.remove_file path d.files))

  unfoldable pub rename : PathBuf → PathBuf → DiskIo (Unit {0})
  rename a b d = with_files d (
      wrapped (λ e. io ("failed to rename " <> (a <> (" to " <> (b <> (": " <> e.message))))))
        (F.rename a b d.files))

  unfoldable pub set_permissions : PathBuf → DiskIo (Unit {0})
  set_permissions path d =
      with_files d (wrapped (io_failed "set permissions on" path) (F.set_mode_755 path d.files))

  unfoldable pub symlink : PathBuf → PathBuf → DiskIo (Unit {0})
  symlink target link d =
      with_files d (wrapped (λ e. symlink_failed link e.message) (F.symlink target link d.files))
