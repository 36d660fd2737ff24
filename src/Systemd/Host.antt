-- ===== src/Systemd/Host.antt =====
-- The programs and the clock that src/main.rs calls on a host, as an interface, and code that runs
-- on the host: it changes the files, and collects what it emits and logs.
use deptool.Base.{String, ℕ, Bool, List, [], ◌∷◌, ◌++◌, Result, ok, Fault, string_ord}
use deptool.Error.{ApplyError, reconcile_failed, display_apply_error}
use deptool.Protocol.{Message}
use deptool.Store.Repository.{Repository}
use deptool.FileSystem.{FileSystem, IoError}
use deptool.Io.{Io, modify, with_error}
use deptool.Checkout.Disk.{Disk, DiskIo}

-- `std::process::Output`, its streams decoded.
pub record Output : Type 0 where
  pub success : Bool
  pub stdout : String
  pub stderr : String

pub record Systemd {R : Repository} (F : FileSystem R) : Type 1 where
  pub Child : Type 0
  -- a program with its arguments and the variable that is set for it, run to its end
  pub run : String → List String → F.State → Result IoError Output × F.State
  -- `systemctl` with these arguments, its output thrown away
  pub systemctl : List String → F.State → F.State
  pub spawn : String → String → F.State → Result IoError Child × F.State
  -- whether the process has ended; `false` also if that cannot be told
  pub try_wait : Child → F.State → Bool × F.State
  -- `thread::sleep` for 100 ms
  pub sleep : F.State → F.State
  pub monotonic_now : F.State → ℕ

module _ {R : Repository} (F : FileSystem R) where
  pub record Host : Type 0 where
    pub files : F.State
    pub messages : List Message
    pub lines : List String

  abbrev pub HostIo : Type 0 → Type 0
  HostIo A = Io Host (Fault ApplyError) A

  unfoldable pub emit : Message → HostIo (Unit {0})
  emit message = modify (λ h. record h { messages = h.messages ++ (message ∷ []) })

  unfoldable pub log : String → HostIo (Unit {0})
  log line = modify (λ h. record h { lines = h.lines ++ (line ∷ []) })

  abbrev after_files : {A : Type 0} → Host → A × F.State → Result (Fault ApplyError) A × Host
  after_files h (a, files) = (ok a, record h { files = files })

  -- A call of the operating system, whose result the caller inspects.
  unfoldable pub on_files : {A : Type 0} → (F.State → A × F.State) → HostIo A
  on_files f h = after_files h (f h.files)

  abbrev after_disk :
      {A : Type 0}
      → Host
      → Result (Fault ApplyError) A × Disk F
      → Result (Fault ApplyError) A × Host
  after_disk h (r, d) = (r, record h { files = d.files })

  -- A reconciliation, which logs nothing.
  unfoldable pub reconciled : {A : Type 0} → DiskIo F A → HostIo A
  reconciled action h = after_disk h (action (record { files = h.files; lines = [] }))

  -- `map_err(reconcile_failed(subject))`
  abbrev pub for_subject : {A : Type 0} → String → DiskIo F A → DiskIo F A
  for_subject subject action =
      with_error (λ cause. reconcile_failed subject (display_apply_error cause)) action
