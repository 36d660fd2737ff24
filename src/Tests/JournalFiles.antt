-- ===== src/Tests/JournalFiles.antt =====
-- A file system that holds nothing, accepts every change, and keeps a journal of them.
use deptool.Base.{String, ◌<>◌, true, false, List, [], ◌∷◌, Result, ok, err}
use deptool.Types.{PathBuf}
use deptool.FileSystem.{FileSystem, IoError, ErrorKind}
use deptool.Tests.MemoryRepository.{memory_repository}

abbrev absent : IoError
absent = record { kind = ErrorKind.missing; message = "No such file or directory" }

abbrev note : String → PathBuf → List String → Result IoError (Unit {0}) × List String
note operation path journal = (ok tt, (operation <> (" " <> path)) ∷ journal)

abbrev pub journal_files : FileSystem memory_repository
journal_files = record {
  State = List String;
  exists = λ j path. false;
  is_dir = λ j path. false;
  is_symlink = λ j path. false;
  occupied = λ j path. false;
  read_link = λ j path. err absent;
  read_dir = λ j path. ok [];
  metadata = λ j path. err absent;
  read = λ j path. err absent;
  is_executable = λ j path. err absent;
  depth = λ j path. 0;
  create_dir_all = note "mkdir";
  remove_file = note "rm";
  remove_dir = note "rmdir";
  remove_dir_all = note "rm -r";
  rename = λ from to j. note "mv" (from <> (" " <> to)) j;
  symlink = λ target link j. note "ln" (target <> (" " <> link)) j;
  set_mode_755 = note "chmod";
  remove_write_bits = note "chmod";
  checkout_tree = λ m oid path j. (ok tt, (oid <> (" " <> path)) ∷ j);
  open_lock_file = note "open";
  try_flock_exclusive = λ path j. (ok true, j);
  read_lock_file = λ j path. "";
  truncate_lock_file = note "truncate";
  rewind_lock_file = note "rewind";
  write_lock_file = λ path text j. (text <> (" " <> path)) ∷ j;
  release_lock = λ path j. ("release " <> path) ∷ j;
  open_log = note "open";
}
