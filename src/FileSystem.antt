-- ===== src/FileSystem.antt =====
-- What the agent calls of `std::fs`, of `flock` and of libgit2's checkout, as an interface. None
-- of them is under the source tree, so nothing is assumed of these operations but what a theorem
-- names as a hypothesis.
use deptool.Base.{String, ℕ, Bool, Option, List, Result}
use deptool.Types.{Oid, PathBuf}
use deptool.Store.Repository.{Repository, GitError}

pub data ErrorKind : Type 0 where
  missing already_exists other_kind : ErrorKind

-- `std::io::Error`
pub record IoError : Type 0 where
  pub kind : ErrorKind
  pub message : String

pub record Metadata : Type 0 where
  pub is_dir : Bool
  pub is_file : Bool
  pub len : ℕ

-- `std::fs::DirEntry`; the name is `None` if it is not valid UTF-8.
pub record DirEntry : Type 0 where
  pub path : PathBuf
  pub file_name : Option String
  -- of the entry itself, not of what a link points to
  pub entry_is_dir : Bool
  pub entry_is_file : Bool
  pub entry_is_symlink : Bool

pub record FileSystem (R : Repository) : Type 1 where
  pub State : Type 0
  pub exists : State → PathBuf → Bool
  pub is_dir : State → PathBuf → Bool
  pub is_symlink : State → PathBuf → Bool
  -- `symlink_metadata().is_ok()`
  pub occupied : State → PathBuf → Bool
  pub read_link : State → PathBuf → Result IoError PathBuf
  pub read_dir : State → PathBuf → Result IoError (List (Result IoError DirEntry))
  pub metadata : State → PathBuf → Result IoError Metadata
  pub read : State → PathBuf → Result IoError String
  -- whether the mode of a file has the bit 0o100
  pub is_executable : State → PathBuf → Result IoError Bool
  -- the levels of directories below a path
  pub depth : State → PathBuf → ℕ
  pub create_dir_all : PathBuf → State → Result IoError (Unit {0}) × State
  pub remove_file : PathBuf → State → Result IoError (Unit {0}) × State
  pub remove_dir : PathBuf → State → Result IoError (Unit {0}) × State
  pub remove_dir_all : PathBuf → State → Result IoError (Unit {0}) × State
  pub rename : PathBuf → PathBuf → State → Result IoError (Unit {0}) × State
  pub symlink : PathBuf → PathBuf → State → Result IoError (Unit {0}) × State
  -- mode 0o755, and the mode without its write bits
  pub set_mode_755 : PathBuf → State → Result IoError (Unit {0}) × State
  pub remove_write_bits : PathBuf → State → Result IoError (Unit {0}) × State
  -- `checkout_tree` of a tree into a directory
  pub checkout_tree : R.State → Oid → PathBuf → State → Result GitError (Unit {0}) × State
  -- the lock file: opened and locked without blocking (`false` if another process holds it), its
  -- contents, the contents replaced, and the lock released
  pub open_lock_file : PathBuf → State → Result IoError (Unit {0}) × State
  pub try_flock_exclusive : PathBuf → State → Result IoError Bool × State
  pub read_lock_file : State → PathBuf → String
  pub truncate_lock_file : PathBuf → State → Result IoError (Unit {0}) × State
  pub rewind_lock_file : PathBuf → State → Result IoError (Unit {0}) × State
  pub write_lock_file : PathBuf → String → State → State
  pub release_lock : PathBuf → State → State
  -- `FileLog::open`
  pub open_log : PathBuf → State → Result IoError (Unit {0}) × State
