-- ===== src/Agent/Lock.antt =====
-- src/agent.rs: the lock request.
pub mod Answers
use deptool.Base.{
  String, ◌<>◌, Bool, true, false, not, Option, none, some, List, [], ◌∷◌, Result, ok, err, Fault,
  failed, panicked, ◌==◌, string_ord, if◌then◌else◌,
}
use deptool.Types.{Oid, Hostname, PathBuf, join}
use deptool.Error.{ApplyError, StoreError, io}
use deptool.Protocol.{
  Message, locked, lock_stale, lock_busy, lock_hostname_changed, error_pre_apply,
}
use deptool.Store.Repository.{Repository, Tree, TreeEntry, get_name}
use deptool.Store.Refs.{current_commit, get_deployed_hostname, get_commit_tree}
use deptool.FileSystem.{FileSystem, IoError}
use deptool.Io.{Io, pure, fail, lift_reads, reads, modify, when, ◌>>=◌, ◌>>◌}
use deptool.Agent.Session.{
  AgentSession, Action, LogState, disabled, pending, active, SessionState, log, emit_message,
}

-- `==` on two `Option<Oid>`
abbrev pub same_commit : Option Oid → Option Oid → Bool
same_commit none none = true
same_commit none (some b) = false
same_commit (some a) none = false
same_commit (some a) (some b) = a == b

abbrev pub held_by : String → Option String
held_by text = if text == "" then none else some text

module _ (R : Repository) (F : FileSystem R) where
  abbrev pub own_entry :
      Hostname → Result StoreError Tree → Result (Fault ApplyError) (Option Message)
  own_entry host (err _) = err (panicked "current commit resolves to a tree")
  own_entry host (ok t) = elim (get_name t host) [
    | some _ ↦ ok none
    | none ↦ ok (some (lock_hostname_changed none))
  ]

  abbrev pub deployed_hostname :
      R.State
      → Hostname
      → Oid
      → Result StoreError (Option Hostname)
      → Result (Fault ApplyError) (Option Message)
  deployed_hostname s host commit (err _) = err (panicked "host store config is readable")
  deployed_hostname s host commit (ok (some deployed_as)) =
      if deployed_as == host then ok none else ok (some (lock_hostname_changed (some deployed_as)))
  deployed_hostname s host commit (ok none) = own_entry host (get_commit_tree R s commit)

  -- The refusal, if what is deployed belongs to another hostname.
  unfoldable pub check_deployed_hostname :
      R.State → Hostname → Option Oid → Result (Fault ApplyError) (Option Message)
  check_deployed_hostname s host none = ok none
  check_deployed_hostname s host (some commit) =
      deployed_hostname s host commit (get_deployed_hostname R s)

  -- An operation on the lock file.
  abbrev pub with_file :
      {A : Type 0}
      → AgentSession R F
      → Result IoError A × F.State
      → Result (Fault ApplyError) (Result IoError A) × AgentSession R F
  with_file a (r, files) = (ok r, record a { files = files })

  abbrev pub on_file :
      {A : Type 0}
      → (PathBuf → F.State → Result IoError A × F.State)
      → Action R F (Result IoError A)
  on_file f a = with_file a (f a.lock_path a.files)

  abbrev pub expect_done : Result IoError (Unit {0}) → String → Action R F (Unit {0})
  expect_done (ok _) message = pure tt
  expect_done (err _) message = fail (panicked message)

  -- The lock is released when the file is dropped.
  unfoldable pub drop_lock : Action R F (Unit {0})
  drop_lock = modify (λ a. record a { files = F.release_lock a.lock_path a.files })

  abbrev pub opened_log :
      PathBuf → AgentSession R F → Result IoError (Unit {0}) × F.State → AgentSession R F
  opened_log path a (ok _, files) = record a { files = files; log_state = active path }
  opened_log path a (err _, files) = record a { files = files }

  abbrev pub open_pending : LogState → AgentSession R F → AgentSession R F
  open_pending (pending path) a = opened_log path a (F.open_log path a.files)
  open_pending disabled a = a
  open_pending (active path) a = a

  -- The log is opened once the lock is held.
  unfoldable pub open_log : Action R F (Unit {0})
  open_log = modify (λ a. open_pending a.log_state a)

  unfoldable pub grant_lock : String → Action R F (Unit {0})
  unfolding open_log
  grant_lock operator = do
    open_log
    log R F ("lock acquired by " <> operator)
    modify (λ a. record a { session = SessionState.locked operator })
    emit_message R F locked

  unfoldable pub refuse_lock : Message → Action R F (Unit {0})
  unfolding drop_lock
  refuse_lock message = do emit_message R F message; drop_lock

  -- Whether the lock is granted, from the refusal and the two commits.
  abbrev pub answer_lock : Option Message → Option Oid → Option Oid → String → Action R F (Unit {0})
  answer_lock (some message) actual expected operator = refuse_lock message
  answer_lock none actual expected operator =
      if same_commit actual expected
      then grant_lock operator
      else refuse_lock (lock_stale expected actual)

  -- What follows once the file is locked.
  unfoldable pub finish_lock : Option Oid → String → Action R F (Unit {0})
  finish_lock expected operator = do
    actual ← reads (λ a. current_commit R a.store)
    refusal ← lift_reads (λ a. check_deployed_hostname a.store a.hostname actual)
    answer_lock refusal actual expected operator

  unfoldable pub claim_lock_file : String → Action R F (Unit {0})
  claim_lock_file operator = do
    truncated ← on_file F.truncate_lock_file
    expect_done truncated "truncating lockfile succeeds"
    rewound ← on_file F.rewind_lock_file
    expect_done rewound "seeking lockfile succeeds"
    modify (λ a. record a { files = F.write_lock_file a.lock_path operator a.files })

  abbrev lock_error : String → PathBuf → IoError → Message
  lock_error operation path e =
      error_pre_apply (io ("failed to " <> (operation <> (" '" <> (path <> ("': " <> e.message))))))

  -- The two answers of the lock, or its failure.
  unfoldable pub after_flock : Option Oid → String → Result IoError Bool → Action R F (Unit {0})
  after_flock expected operator (err e) = do
    path ← reads (λ a. a.lock_path)
    emit_message R F (lock_error "lock" path e)
  after_flock expected operator (ok false) = do
    text ← reads (λ a. F.read_lock_file a.files a.lock_path)
    emit_message R F (lock_busy (held_by text))
  after_flock expected operator (ok true) = do
    claim_lock_file operator
    finish_lock expected operator

  unfoldable pub handle_lock : Option Oid → String → Action R F (Unit {0})
  handle_lock expected operator = do
    opened ← on_file F.open_lock_file
    elim opened [
      | err e ↦ do
        path ← reads (λ a. a.lock_path)
        emit_message R F (lock_error "open lock file" path e)
      | ok _ ↦ do answer ← on_file F.try_flock_exclusive; after_flock expected operator answer
    ]
