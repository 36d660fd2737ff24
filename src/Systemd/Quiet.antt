-- ===== src/Systemd/Quiet.antt =====
-- src/main.rs: the messages of an activation, which are messages of progress.
use deptool.Base.{
  ◌≡◌, refl, ◌∙◌, String, ℕ, zero, suc, Bool, true, false, List, [], ◌∷◌, Result, ok, err, arith,
  string_ord,
}
use deptool.Types.{Oid, PathBuf}
use deptool.Error.{ApplyError}
use deptool.Protocol.{ApplyMode, Message, apply}
use deptool.Store.Repository.{Repository}
use deptool.FileSystem.{FileSystem, IoError}
use deptool.Io.{modify}
use deptool.Io.Keeps.{
  Keeps, pure-Keeps, fail-Keeps, lift-Keeps, reads-Keeps, when-Keeps, bind-Keeps, then-Keeps,
}
use deptool.Plan.Changes.{SystemDiff}
use deptool.Checkout.Disk.{DiskIo}
use deptool.Agent.Session.{AgentSession, DesiredState}
use deptool.Agent.Requests.{handle_request}
use deptool.Agent.Final.{finals, is_final, count_final, count_final-append}
use deptool.Agent.Final.Answer.{handle_request-final}
use deptool.Systemd.Host.{Output, Systemd, Host, HostIo, emit, log, on_files, reconciled}
use deptool.Systemd.Poll.{
  PendingRestart, Round, after_round, poll, read_statuses, stop_waiting, judge,
}
use deptool.Systemd.Activate.{
  SystemdActivator, tool_result, unless, reload_networkd, run_sysusers, systemctl_ok, disable_units,
  enable_units, spawned, spawn_jobs, verdict, restart_units, reload_systemd, prepare_host,
  activate_host, systemd_activate,
}

module _ {R : Repository} {F : FileSystem R} where
  -- The final messages among what is emitted.
  abbrev finals_of : Host F → ℕ
  finals_of h = count_final h.messages

  emit-Keeps : (message : Message) → is_final message ≡ false → Keeps finals_of (emit F message)
  unfolding emit modify
  emit-Keeps message quiet = record {
    same = λ h. count_final-append h.messages (message ∷ []) ∙ rw quiet (ground arith);
  }

  log-Keeps : (line : String) → Keeps finals_of (log F line)
  unfolding log modify
  log-Keeps line = record { same = λ h. refl }

  on_files-Keeps : {A : Type 0} (f : F.State → A × F.State) → Keeps finals_of (on_files F f)
  unfolding on_files
  on_files-Keeps f = record { same = λ h. refl }

  reconciled-Keeps : {A : Type 0} (m : DiskIo F A) → Keeps finals_of (reconciled F m)
  unfolding reconciled
  reconciled-Keeps m = record { same = λ h. refl }

module _ {R : Repository} {F : FileSystem R} (S : Systemd F) where
  unless-Keeps : (b : Bool) (error : ApplyError) → Keeps finals_of (unless S b error)
  unless-Keeps true error = pure-Keeps finals_of tt
  unless-Keeps false error = fail-Keeps finals_of _

  tool_result-Keeps :
      (shown : String → Message) (command : String) (error : ApplyError) (r : Result IoError Output)
      → ((text : String) → is_final (shown text) ≡ false)
      → Keeps finals_of (tool_result S shown command error r)
  unfolding tool_result
  tool_result-Keeps shown command error (ok output) quiet =
      then-Keeps _ _ _ (when-Keeps _ _ _ (emit-Keeps _ (quiet _)))
        (unless-Keeps output.success error)
  tool_result-Keeps shown command error (err e) quiet =
      then-Keeps _ _ _ (emit-Keeps _ (quiet _)) (fail-Keeps _ _)

  reload_networkd-Keeps : Keeps finals_of (reload_networkd S)
  unfolding reload_networkd
  reload_networkd-Keeps = then-Keeps _ _ _ (log-Keeps _) (
      bind-Keeps _ _ _ (on_files-Keeps _) λ result.
        then-Keeps _ _ _ (tool_result-Keeps Message.networkd_output _ _ result (λ _. refl))
          (bind-Keeps _ _ _ (on_files-Keeps _) λ status. emit-Keeps _ refl))

  run_sysusers-Keeps : Keeps finals_of (run_sysusers S)
  unfolding run_sysusers
  run_sysusers-Keeps = then-Keeps _ _ _ (log-Keeps _) (
      bind-Keeps _ _ _ (on_files-Keeps _)
        λ result. tool_result-Keeps Message.sysusers_output _ _ result (λ _. refl))

  systemctl_ok-Keeps : (args : List String) → Keeps finals_of (systemctl_ok S args)
  unfolding systemctl_ok
  systemctl_ok-Keeps args = on_files-Keeps _

  disable_units-Keeps : (units : List String) → Keeps finals_of (disable_units S units)
  unfolding disable_units
  disable_units-Keeps [] = pure-Keeps _ tt
  disable_units-Keeps (unit ∷ units) =
      then-Keeps _ _ _ (log-Keeps _)
        (then-Keeps _ _ _ (systemctl_ok-Keeps _) (disable_units-Keeps units))

  enable_units-Keeps : (units : List String) → Keeps finals_of (enable_units S units)
  unfolding enable_units
  enable_units-Keeps [] = pure-Keeps _ tt
  enable_units-Keeps (unit ∷ units) =
      then-Keeps _ _ _ (log-Keeps _)
        (then-Keeps _ _ _ (systemctl_ok-Keeps _) (enable_units-Keeps units))

  spawned-Keeps :
      (mode : ApplyMode) (unit : String) (r : Result IoError S.Child)
      → Keeps finals_of (spawned S mode unit r)
  spawned-Keeps mode unit (ok child) = pure-Keeps _ _
  spawned-Keeps mode unit (err e) = fail-Keeps _ _

  spawn_jobs-Keeps :
      (mode : ApplyMode) (units : List String) → Keeps finals_of (spawn_jobs S mode units)
  unfolding spawn_jobs
  spawn_jobs-Keeps mode [] = pure-Keeps _ _
  spawn_jobs-Keeps mode (unit ∷ units) = then-Keeps _ _ _ (log-Keeps _) (
      bind-Keeps _ _ _ (on_files-Keeps _) λ child.
        bind-Keeps _ _ _ (spawned-Keeps mode unit child)
          λ pending. bind-Keeps _ _ _ (spawn_jobs-Keeps mode units) λ rest. pure-Keeps _ _)

  read_statuses-Keeps : (touched : List String) → Keeps finals_of (read_statuses S touched)
  unfolding read_statuses
  read_statuses-Keeps touched = bind-Keeps _ _ _ (on_files-Keeps _) λ shown. lift-Keeps _ _

  stop_waiting-Keeps : (announced : Bool) → Keeps finals_of (stop_waiting S announced)
  unfolding stop_waiting
  stop_waiting-Keeps announced =
      then-Keeps _ _ _ (when-Keeps _ announced _ (emit-Keeps _ refl)) (pure-Keeps _ _)

  after_round-Keeps :
      (b c : Bool) (round : Round S.Child) (announced : Bool) (next : HostIo F (List String))
      → Keeps finals_of next
      → Keeps finals_of (after_round S b c round announced next)
  after_round-Keeps false c round announced next k = pure-Keeps _ _
  after_round-Keeps true true round announced next k = stop_waiting-Keeps announced
  after_round-Keeps true false round announced next k =
      then-Keeps _ _ _ (when-Keeps _ _ _ (emit-Keeps _ refl)) k

  poll-Keeps :
      (fuel : ℕ) (touched : List String) (restarts : List (PendingRestart S.Child)) (deadline : ℕ)
      (announced : Bool)
      → Keeps finals_of (poll S fuel touched restarts deadline announced)
  unfolding poll
  poll-Keeps zero touched restarts deadline announced = fail-Keeps _ _
  poll-Keeps (suc fuel) touched restarts deadline announced = then-Keeps _ _ _ (on_files-Keeps _) (
      bind-Keeps _ _ _ (reads-Keeps _ _) λ now. bind-Keeps _ _ _ (on_files-Keeps _) λ reaped.
        bind-Keeps _ _ _ (read_statuses-Keeps touched) λ statuses.
          after_round-Keeps _ _ (judge reaped.0 statuses now) announced _
            (poll-Keeps fuel touched _ _ _))

  verdict-Keeps : (units : List String) → Keeps finals_of (verdict S units)
  verdict-Keeps [] = pure-Keeps _ tt
  verdict-Keeps (unit ∷ units) = fail-Keeps _ _

  restart_units-Keeps :
      (rounds : ℕ) (mode : ApplyMode) (touched : List String)
      → Keeps finals_of (restart_units S rounds mode touched)
  unfolding restart_units
  restart_units-Keeps rounds mode touched =
      bind-Keeps _ _ _ (spawn_jobs-Keeps mode touched) λ restarts.
        bind-Keeps _ _ _ (reads-Keeps _ _) λ now.
          bind-Keeps _ _ _ (poll-Keeps rounds touched restarts _ false) λ failed_units.
            bind-Keeps _ _ _ (on_files-Keeps _) λ status.
              then-Keeps _ _ _ (when-Keeps _ _ _ (emit-Keeps _ refl)) (verdict-Keeps failed_units)

  reload_systemd-Keeps : (managed : Bool) → Keeps finals_of (reload_systemd S managed)
  unfolding reload_systemd
  reload_systemd-Keeps managed =
      when-Keeps _ managed _ (then-Keeps _ _ _ (log-Keeps _) (systemctl_ok-Keeps _))

  prepare_host-Keeps :
      (dirs : SystemdActivator) (desired : DesiredState) (changes : SystemDiff PathBuf)
      → Keeps finals_of (prepare_host S dirs desired changes)
  unfolding prepare_host
  prepare_host-Keeps dirs desired changes = then-Keeps _ _ _ (reconciled-Keeps _) (
      then-Keeps _ _ _ (reconciled-Keeps _) (
        then-Keeps _ _ _ (when-Keeps _ _ _ reload_networkd-Keeps) (
          then-Keeps _ _ _ (reconciled-Keeps _) (
            then-Keeps _ _ _ (reconciled-Keeps _) (
              then-Keeps _ _ _ (when-Keeps _ _ _ run_sysusers-Keeps) (
                then-Keeps _ _ _ (disable_units-Keeps _) (
                  then-Keeps _ _ _ (reconciled-Keeps _)
                    (then-Keeps _ _ _ (enable_units-Keeps _) (reload_systemd-Keeps _)))))))))

  activate_host-Keeps :
      (rounds : ℕ) (dirs : SystemdActivator) (mode : ApplyMode) (desired : DesiredState)
      (changes : SystemDiff PathBuf)
      → Keeps finals_of (activate_host S rounds dirs mode desired changes)
  unfolding activate_host
  activate_host-Keeps rounds dirs mode desired changes =
      then-Keeps _ _ _ (prepare_host-Keeps dirs desired changes)
        (when-Keeps _ _ _ (restart_units-Keeps rounds mode _))

  -- No message of an activation ends the request.
  pub systemd_activate-progress :
      (rounds : ℕ) (dirs : SystemdActivator) (mode : ApplyMode) (desired : DesiredState)
      (changes : SystemDiff PathBuf) (files : F.State)
      → count_final (systemd_activate S rounds dirs mode desired changes files).messages ≡ 0
  unfolding systemd_activate
  systemd_activate-progress rounds dirs mode desired changes files =
      (activate_host-Keeps rounds dirs mode desired changes).same _

  -- With the activation of src/main.rs, an apply request that does not panic adds exactly one
  -- final message to what the session emits, whatever the programs on the host answer.
  pub systemd_request-final :
      (rounds : ℕ) (dirs : SystemdActivator) (target : Oid) (mode : ApplyMode)
      (a : AgentSession R F)
      → (handle_request R F (systemd_activate S rounds dirs) (apply target mode) a).0 ≡ ok tt
      → finals R F (handle_request R F (systemd_activate S rounds dirs) (apply target mode) a).1
        ≡ suc (finals R F a)
  systemd_request-final rounds dirs =
      handle_request-final R F (systemd_activate S rounds dirs) (λ mode desired changes files.
        systemd_activate-progress rounds dirs mode desired changes files)
