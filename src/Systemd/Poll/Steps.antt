-- ===== src/Systemd/Poll/Steps.antt =====
-- src/main.rs: what the loop that waits for units should do, as a step relation that does not call
-- the code of the loop. A step is a round after which the loop goes on.
use deptool.Base.{
  length, ◌≡◌, ◌≢◌, String, ℕ, ◌+◌, ◌≤◌, ◌<◌, true, false, List, [], ◌∷◌, Result, ◌⊎◌,
}
use deptool.Store.Repository.{Repository}
use deptool.FileSystem.{FileSystem, IoError}
use deptool.Systemd.Units.{UnitStatus}
use deptool.Systemd.Host.{Systemd, Output}
use deptool.Systemd.Text.{trim, split_blocks}
use deptool.Systemd.Poll.Shown.{AreShown}
use deptool.Systemd.Poll.{
  RestartState, job, job_done, settling, PendingRestart, Judgement, good, waiting, bad,
  stdout_or_nothing,
}

-- The unit is loaded, its result is no failure, it did not restart since the baseline, and it ended
-- or has been active for 500 ms.
pub record IsHealthy (status baseline : UnitStatus) (now : ℕ) : Type 0 where
  pub loaded : status.load_state ≡ "loaded"
  pub succeeded : (status.result ≡ "") ⊎ (status.result ≡ "success")
  pub stable : status.restarts ≤ baseline.restarts
  pub up :
      (status.active_state ≡ "inactive")
      ⊎ ((status.active_state ≡ "active") × (status.active_enter_monotonic + 500000000 ≤ now))

-- The unit did not load, its result is a failure, or it restarted since the baseline.
abbrev pub IsBroken : UnitStatus → UnitStatus → Type 0
IsBroken status baseline =
    (status.load_state ≢ "loaded")
    ⊎ ((status.result ≢ "") × (status.result ≢ "success"))
    ⊎ (baseline.restarts < status.restarts)

-- A list of the units of one judgement, and one more unit with its own judgement.
abbrev pub noted : Judgement → Judgement → String → List String → List String
noted good good unit units = unit ∷ units
noted waiting waiting unit units = unit ∷ units
noted bad bad unit units = unit ∷ units
noted _ _ unit units = units

module _ {Child : Type 0} where
  -- The first status after the end of the job is the baseline for good.
  pub data HasBaseline (status : UnitStatus)
      : RestartState Child → RestartState Child → Type 0 where
    still_running : {child : Child} → HasBaseline status (job child) (job child)
    first_status : HasBaseline status job_done (settling status)
    later_status :
        {baseline : UnitStatus} → HasBaseline status (settling baseline) (settling baseline)

  -- A unit is bad if it is broken, good if it is healthy, and otherwise it is waited for.
  pub data IsJudged (status : UnitStatus) (now : ℕ) : RestartState Child → Judgement → Type 0 where
    running : {child : Child} → IsJudged status now (job child) waiting
    broken :
        {baseline : UnitStatus}
        → IsBroken status baseline
        → IsJudged status now (settling baseline) bad
    healthy :
        {baseline : UnitStatus}
        → IsHealthy status baseline now
        → IsJudged status now (settling baseline) good
    undecided :
        {baseline : UnitStatus}
        → ¬ IsBroken status baseline
        → ¬ IsHealthy status baseline now
        → IsJudged status now (settling baseline) waiting

  -- One status for each restart: the restarts afterwards, the units that failed, and those that are
  -- waited for.
  pub data AreObserved (now : ℕ)
      : List (PendingRestart Child)
        → List UnitStatus
        → List (PendingRestart Child)
        → List String
        → List String
        → Type 0 where
    none_left : AreObserved now [] [] [] [] []
    observed :
        {unit : String} {before after : RestartState Child} {status : UnitStatus} {j : Judgement}
        {ps qs : List (PendingRestart Child)} {statuses : List UnitStatus}
        {failed_units waiting_units : List String}
        → HasBaseline status before after
        → IsJudged status now after j
        → AreObserved now ps statuses qs failed_units waiting_units
        → AreObserved now
            (record { unit = unit; state = before } ∷ ps)
            (status ∷ statuses)
            (record { unit = unit; state = after } ∷ qs)
            (noted bad j unit failed_units)
            (noted waiting j unit waiting_units)

  -- No restart is at its job.
  abbrev pub HaveEnded : List (PendingRestart Child) → Type 0
  HaveEnded [] = Unit {0}
  HaveEnded (p ∷ ps) = ((child : Child) → p.state ≢ job child) × HaveEnded ps

module _ {R : Repository} {F : FileSystem R} (S : Systemd F) where
  -- The jobs that are asked whether they have ended, one after the other: exactly those for which
  -- the answer is yes are done, and each gives the units 10 s from now.
  pub data AreReaped (now : ℕ)
      : List (PendingRestart S.Child)
        → ℕ
        → F.State
        → List (PendingRestart S.Child)
        → ℕ
        → F.State
        → Type 0 where
    none_left : {deadline : ℕ} {files : F.State} → AreReaped now [] deadline files [] deadline files
    ended :
        {unit : String} {child : S.Child} {ps qs : List (PendingRestart S.Child)}
        {deadline deadline' : ℕ} {files files' files'' : F.State}
        → S.try_wait child files ≡ (true, files')
        → AreReaped now ps (now + 10000000000) files' qs deadline' files''
        → AreReaped now
            (record { unit = unit; state = job child } ∷ ps)
            deadline
            files
            (record { unit = unit; state = job_done } ∷ qs)
            deadline'
            files''
    running :
        {unit : String} {child : S.Child} {ps qs : List (PendingRestart S.Child)}
        {deadline deadline' : ℕ} {files files' files'' : F.State}
        → S.try_wait child files ≡ (false, files')
        → AreReaped now ps deadline files' qs deadline' files''
        → AreReaped now
            (record { unit = unit; state = job child } ∷ ps)
            deadline
            files
            (record { unit = unit; state = job child } ∷ qs)
            deadline'
            files''
    past :
        {p : PendingRestart S.Child} {ps qs : List (PendingRestart S.Child)}
        {deadline deadline' : ℕ} {files files' : F.State}
        → ((child : S.Child) → p.state ≢ job child)
        → AreReaped now ps deadline files qs deadline' files'
        → AreReaped now (p ∷ ps) deadline files (p ∷ qs) deadline' files'

  -- The loop at the start of a round.
  pub record LoopState : Type 0 where
    pub restarts : List (PendingRestart S.Child)
    pub deadline : ℕ
    pub files : F.State

  -- The time of a round, which starts with a sleep.
  abbrev pub time : LoopState → ℕ
  time v = S.monotonic_now (S.sleep v.files)

  -- A round from one state to another: the jobs are reaped, systemd is asked, and the answer has one
  -- status for each restart.
  pub record IsRound (touched : List String) (v w : LoopState)
      (failed_units waiting_units : List String) (statuses : List UnitStatus) : Type 0 where
    pub reaped : List (PendingRestart S.Child)
    pub files : F.State
    pub waited : AreReaped (time v) v.restarts v.deadline (S.sleep v.files) reaped w.deadline files
    pub shown : Result IoError Output
    pub asked :
        S.run "systemctl"
          ("show"
            ∷ "--property=LoadState,ActiveState,ActiveEnterTimestampMonotonic,Result,NRestarts"
            ∷ touched)
          files
        ≡ (shown, w.files)
    pub one_for_each : length statuses ≡ length touched
    pub was_read : AreShown (split_blocks (trim (stdout_or_nothing shown))) statuses
    pub each : AreObserved (time v) reaped statuses w.restarts failed_units waiting_units

  -- Every job has ended, and no unit is waited for or the deadline has passed.
  abbrev pub IsOver : ℕ → LoopState → List String → Type 0
  IsOver now w waiting_units = HaveEnded w.restarts × ((waiting_units ≡ []) ⊎ (w.deadline ≤ now))

  -- A round in which no unit has failed, and after which the waiting is not over.
  pub record GoesOn (touched : List String) (v w : LoopState) : Type 0 where
    pub waiting_units : List String
    pub statuses : List UnitStatus
    pub round : IsRound touched v w [] waiting_units statuses
    pub not_over : ¬ IsOver (time v) w waiting_units

  pub data Reaches (touched : List String) : LoopState → LoopState → Type 0 where
    here : {v : LoopState} → Reaches touched v v
    next : {u v w : LoopState} → GoesOn touched u v → Reaches touched v w → Reaches touched u w
