-- ===== src/Systemd/Poll.antt =====
-- src/main.rs: the loop that waits for the restarted units. The source waits for as long as a
-- restart job runs; here each round takes a unit of fuel.
pub mod Shown
pub mod Steps
pub mod Judged
pub mod Reaped
pub mod Verdict
pub mod Ends
use deptool.Base.{
  String, ◌<>◌, ℕ, zero, suc, ◌+◌, Bool, true, false, ◌&&◌, ◌||◌, not, List, [], ◌∷◌, Result, ok,
  err, Fault, failed, panicked, attempt, length, is_empty, all, nat_eq, leb, if◌then◌else◌,
  ◌>>=◌ as and_then,
}
use deptool.Error.{ApplyError, systemd_status_unreadable}
use deptool.Protocol.{Message}
use deptool.Store.Repository.{Repository}
use deptool.FileSystem.{FileSystem, IoError}
use deptool.Io.{pure, fail, reads, lift, when, ◌>>=◌, ◌>>◌}
use deptool.Systemd.Text.{trim, split_blocks}
use deptool.Systemd.Units.{
  UnitStatus, Activation, running, starting, from_show_block, activation, settled,
}
use deptool.Systemd.Host.{Output, Systemd, Host, HostIo, emit, on_files}

pub data RestartState (Child : Type 0) : Type 0 where
  job : Child → RestartState Child
  job_done : RestartState Child
  settling : UnitStatus → RestartState Child

pub record PendingRestart (Child : Type 0) : Type 0 where
  pub unit : String
  pub state : RestartState Child

-- What a round says of one unit.
pub data Judgement : Type 0 where
  good waiting bad : Judgement

-- What a round says of all units, and where their restarts are.
pub record Round (Child : Type 0) : Type 0 where
  pub restarts : List (PendingRestart Child)
  pub failed_units : List String
  pub waiting_units : List String

-- 10 s
abbrev pub patience : ℕ
patience = 10000000000

abbrev pub judge_activation : Activation → Bool → Judgement
judge_activation Activation.succeeded is_settled = good
judge_activation running is_settled = if is_settled then good else waiting
judge_activation starting is_settled = waiting
judge_activation Activation.failed is_settled = bad

module _ {Child : Type 0} where
  -- The first status after the end of the job is the baseline.
  unfoldable pub with_baseline : UnitStatus → RestartState Child → RestartState Child
  with_baseline status job_done = settling status
  with_baseline status (job child) = job child
  with_baseline status (settling baseline) = settling baseline

  unfoldable pub judge_unit : RestartState Child → UnitStatus → ℕ → Judgement
  judge_unit (job _) status now = waiting
  judge_unit job_done status now = waiting
  judge_unit (settling baseline) status now =
      judge_activation (activation status baseline) (settled status now)

  abbrev pub note_unit :
      PendingRestart Child → RestartState Child → Judgement → Round Child → Round Child
  note_unit p state good round = record round {
    restarts = record p { state = state } ∷ round.restarts;
  }
  note_unit p state waiting round = record round {
    restarts = record p { state = state } ∷ round.restarts;
    waiting_units = p.unit ∷ round.waiting_units;
  }
  note_unit p state bad round = record round {
    restarts = record p { state = state } ∷ round.restarts;
    failed_units = p.unit ∷ round.failed_units;
  }

  -- The loop over the restarts and their statuses.
  unfoldable pub judge : List (PendingRestart Child) → List UnitStatus → ℕ → Round Child
  judge [] statuses now = record { restarts = []; failed_units = []; waiting_units = [] }
  judge (p ∷ ps) [] now = record { restarts = p ∷ ps; failed_units = []; waiting_units = [] }
  judge (p ∷ ps) (status ∷ statuses) now =
      let state = with_baseline status p.state in
      note_unit p state (judge_unit state status now) (judge ps statuses now)

  abbrev pub is_restarted : PendingRestart Child → Bool
  is_restarted p = elim p.state [ job _ ↦ false | job_done ↦ true | settling _ ↦ true ]

unfoldable pub parse_blocks : List String → Result ApplyError (List UnitStatus)
parse_blocks [] = ok []
parse_blocks (block ∷ blocks) =
    and_then (from_show_block block)
      λ status. and_then (parse_blocks blocks) λ statuses. ok (status ∷ statuses)

abbrev pub stdout_or_nothing : Result IoError Output → String
stdout_or_nothing (ok output) = output.stdout
stdout_or_nothing (err _) = ""

abbrev pub show_args : List String → List String
show_args touched =
    "show" ∷ "--property=LoadState,ActiveState,ActiveEnterTimestampMonotonic,Result,NRestarts"
    ∷ touched

-- The statuses in a report, one for each unit.
unfoldable pub read_report : List String → String → Result ApplyError (List UnitStatus)
read_report touched report =
    let blocks = split_blocks (trim report) in
    if nat_eq (length blocks) (length touched)
    then parse_blocks blocks
    else err (systemd_status_unreadable report)

module _ {R : Repository} {F : FileSystem R} (S : Systemd F) where
  -- A job that ended gives the units another 10 s.
  abbrev pub reaped :
      PendingRestart S.Child → ℕ → ℕ → Bool × F.State → (PendingRestart S.Child × ℕ) × F.State
  reaped p now deadline (true, files) = ((record p { state = job_done }, now + patience), files)
  reaped p now deadline (false, files) = ((p, deadline), files)

  unfoldable pub reap_one :
      PendingRestart S.Child → ℕ → ℕ → F.State → (PendingRestart S.Child × ℕ) × F.State
  reap_one p now deadline files = elim p.state [
    | job child ↦ reaped p now deadline (S.try_wait child files)
    | job_done ↦ ((p, deadline), files)
    | settling _ ↦ ((p, deadline), files)
  ]

  unfoldable pub reap :
      List (PendingRestart S.Child)
      → ℕ
      → ℕ
      → F.State
      → (List (PendingRestart S.Child) × ℕ) × F.State
  reap [] now deadline files = (([], deadline), files)
  reap (p ∷ ps) now deadline files =
      let ((p', deadline'), files') = reap_one p now deadline files in
      let ((ps', deadline''), files'') = reap ps now deadline' files' in
      ((p' ∷ ps', deadline''), files'')

  unfoldable pub read_statuses : List String → HostIo F (List UnitStatus)
  read_statuses touched = do
    shown ← on_files F (S.run "systemctl" (show_args touched))
    lift (attempt (read_report touched (stdout_or_nothing shown)))

  -- The loop ends without failed units: the line that tells of waiting is cleared.
  unfoldable pub stop_waiting : Bool → HostIo F (List String)
  stop_waiting announced_wait = do
    when announced_wait (emit F (Message.waiting_for_units []))
    pure []

  abbrev pub is_over : Round S.Child → ℕ → ℕ → Bool
  is_over round now deadline =
      all is_restarted round.restarts && (is_empty round.waiting_units || leb deadline now)

  -- The end of a round: whether no unit failed, whether the waiting is over, and the next round.
  abbrev pub after_round :
      Bool → Bool → Round S.Child → Bool → HostIo F (List String) → HostIo F (List String)
  after_round false over round announced_wait next = pure round.failed_units
  after_round true true round announced_wait next = stop_waiting announced_wait
  after_round true false round announced_wait next = do
    when (not (is_empty round.waiting_units))
        (emit F (Message.waiting_for_units round.waiting_units))
    next

  unfoldable pub poll :
      ℕ → List String → List (PendingRestart S.Child) → ℕ → Bool → HostIo F (List String)
  poll zero touched restarts deadline announced_wait = fail (panicked "still waiting for units")
  poll (suc fuel) touched restarts deadline announced_wait = do
    on_files F (λ files. (tt, S.sleep files))
    now ← reads (λ h. S.monotonic_now h.files)
    reaped_restarts ← on_files F (reap restarts now deadline)
    statuses ← read_statuses touched
    let round = judge reaped_restarts.0 statuses now
    after_round (is_empty round.failed_units) (is_over round now reaped_restarts.1) round
        announced_wait
        (poll fuel touched round.restarts reaped_restarts.1
          (announced_wait || not (is_empty round.waiting_units)))
