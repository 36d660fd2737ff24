-- ===== src/Tests/Machine.antt =====
-- A host where every program succeeds and every unit is active, and whose clock moves on by 100 ms
-- with each sleep.
use deptool.Base.{ℕ, ◌*◌, true, false, [], ok, err, suc, arith, Result}
use deptool.FileSystem.{FileSystem, IoError}
use deptool.Systemd.Host.{Systemd, Output}
use deptool.Systemd.Poll.Ends.{ClockLaws}
use deptool.Tests.MemoryRepository.{memory_repository}

-- The state of the files is the time in units of 100 ms.
abbrev done : ℕ → Result IoError (Unit {0}) × ℕ
done t = (ok tt, t)

abbrev absent : IoError
absent = record {
  kind = deptool.FileSystem.ErrorKind.missing;
  message = "No such file or directory";
}

abbrev pub clock_files : FileSystem memory_repository
clock_files = record {
  State = ℕ;
  exists = λ s path. false;
  is_dir = λ s path. false;
  is_symlink = λ s path. false;
  occupied = λ s path. false;
  read_link = λ s path. err absent;
  read_dir = λ s path. ok [];
  metadata = λ s path. err absent;
  read = λ s path. err absent;
  is_executable = λ s path. err absent;
  depth = λ s path. 0;
  create_dir_all = λ path s. done s;
  remove_file = λ path s. done s;
  remove_dir = λ path s. done s;
  remove_dir_all = λ path s. done s;
  rename = λ from to s. done s;
  symlink = λ target path s. done s;
  set_mode_755 = λ path s. done s;
  remove_write_bits = λ path s. done s;
  checkout_tree = λ m oid path s. (ok tt, s);
  open_lock_file = λ path s. done s;
  try_flock_exclusive = λ path s. (ok true, s);
  read_lock_file = λ s path. "";
  truncate_lock_file = λ path s. done s;
  rewind_lock_file = λ path s. done s;
  write_lock_file = λ path text s. s;
  release_lock = λ path s. s;
  open_log = λ path s. done s;
}

abbrev shown : Output
shown = record {
  success = true;
  stdout =
      "LoadState=loaded\nActiveState=active\nActiveEnterTimestampMonotonic=0\nResult=success\nNRestarts=0\n";
  stderr = "";
}

abbrev pub machine : Systemd clock_files
machine = record {
  Child = Unit {0};
  run = λ program args s. (ok shown, s);
  systemctl = λ args s. s;
  spawn = λ verb unit s. (ok tt, s);
  try_wait = λ child s. (true, s);
  sleep = suc;
  monotonic_now = λ s. s * 100000000;
}

pub clock_laws : ClockLaws machine
clock_laws = record { slept = λ s. omega arith; ran = λ program args s. omega arith }
