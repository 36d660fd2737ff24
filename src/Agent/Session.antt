-- ===== src/Agent/Session.antt =====
-- src/agent.rs: the state of a session, what a request leaves in it, and the activation as an interface.
use deptool.Base.{
  String, Option, none, some, List, [], ◌∷◌, ◌++◌, Result, ok, err, Fault, failed, attempt, map_err,
}
use deptool.BTreeMap.{BTreeMap}
use deptool.Types.{Oid, Hostname, PathBuf, oid_prefix}
use deptool.Error.{ApplyError, StoreError, apply_error_of_store}
use deptool.Protocol.{ApplyMode, Message}
use deptool.Store.Repository.{Repository}
use deptool.FileSystem.{FileSystem}
use deptool.Io.{Io, modify}
use deptool.Plan.Changes.{SystemDiff}
use deptool.Checkout.Disk.{Disk, DiskIo}

pub record DesiredState : Type 0 where
  pub networkd : BTreeMap String PathBuf
  pub quadlets : BTreeMap String PathBuf
  pub sysusers : BTreeMap String PathBuf
  pub units : BTreeMap String PathBuf

abbrev pub no_desired_state : DesiredState
no_desired_state = record { networkd = []; quadlets = []; sysusers = []; units = [] }

-- `LogState`; an active log is a file that is open at its path.
pub data LogState : Type 0 where
  disabled : LogState
  pending : PathBuf → LogState
  active : PathBuf → LogState

-- `SessionState`; a locked session holds the lock file open, and knows the operator.
pub data SessionState : Type 0 where
  unlocked : SessionState
  locked : String → SessionState

pub record ApplyContext : Type 0 where
  pub operator : String
  pub current_commit : Option Oid
  pub target_commit : Oid
  pub mode : ApplyMode

unfoldable pub format_opt_oid : Option Oid → String
format_opt_oid (some oid) = oid_prefix oid
format_opt_oid none = "(none)"

module _ (R : Repository) (F : FileSystem R) where
  -- What an activation leaves: its result, the file system, and what it emitted and logged.
  pub record Activation : Type 0 where
    pub result : Result (Fault ApplyError) (Unit {0})
    pub files : F.State
    pub messages : List Message
    pub lines : List String

  -- `trait Activate`
  abbrev pub Activate : Type 0
  Activate = ApplyMode → DesiredState → SystemDiff PathBuf → F.State → Activation

  -- `AgentSession`, with what it has logged and emitted.
  pub record AgentSession : Type 0 where
    pub store : R.State
    pub files : F.State
    pub hostname : Hostname
    pub apps_dir : PathBuf
    pub lock_path : PathBuf
    pub log_state : LogState
    pub session : SessionState
    pub lines : List String
    pub emitted : List Message

  abbrev pub Action : Type 0 → Type 0
  Action A = Io AgentSession (Fault ApplyError) A

  -- A line is written if the log is open.
  abbrev pub written : LogState → List String → List String → List String
  written disabled old new = old
  written (pending _) old new = old
  written (active _) old new = old ++ new

  unfoldable pub log : String → Action (Unit {0})
  log line = modify (λ a. record a { lines = written a.log_state a.lines (line ∷ []) })

  unfoldable pub emit_message : Message → Action (Unit {0})
  emit_message m = modify (λ a. record a { emitted = a.emitted ++ (m ∷ []) })

  abbrev after_disk :
      {A : Type 0}
      → AgentSession
      → Result (Fault ApplyError) A × Disk F
      → Result (Fault ApplyError) A × AgentSession
  after_disk a (r, d) =
      (r, record a { files = d.files; lines = written a.log_state a.lines d.lines })

  -- A checkout, whose lines go to the log.
  unfoldable pub on_disk : {A : Type 0} → DiskIo F A → Action A
  on_disk action a = after_disk a (action (record { files = a.files; lines = [] }))

  abbrev after_store :
      AgentSession → Result StoreError R.State → Result (Fault ApplyError) (Unit {0}) × AgentSession
  after_store a (ok s) = (ok tt, record a { store = s })
  after_store a (err e) = (err (failed (apply_error_of_store e)), a)

  -- A change of the store, under `?`.
  unfoldable pub on_store : (R.State → Result StoreError R.State) → Action (Unit {0})
  on_store change a = after_store a (change a.store)

  -- A read of the store, under `?`.
  unfoldable pub from_store : {A : Type 0} → (R.State → Result StoreError A) → Action A
  from_store f a = (attempt (map_err apply_error_of_store (f a.store)), a)

  unfoldable pub run_activation : Activation → Action (Unit {0})
  run_activation x a = (
    x.result,
    record a {
      files = x.files;
      lines = written a.log_state a.lines x.lines;
      emitted = a.emitted ++ x.messages;
    },
  )

  unfoldable pub activate :
      Activate → ApplyMode → DesiredState → SystemDiff PathBuf → Action (Unit {0})
  unfolding run_activation
  activate activator mode desired changes a =
      run_activation (activator mode desired changes a.files) a
