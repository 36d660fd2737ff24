-- ===== src/Systemd/Activate.antt =====
-- src/main.rs: `SystemdActivator::activate`.
use deptool.Base.{
  String, ◌<>◌, ℕ, ◌+◌, Bool, true, false, ◌||◌, not, List, [], ◌∷◌, ◌++◌, Result, ok, err, Fault,
  failed, is_empty, string_ord, ◌==◌,
}
use deptool.Types.{PathBuf}
use deptool.Error.{
  ApplyError, io, networkd_reload_failed, sysusers_activation_failed, systemd_activation_failed,
}
use deptool.Protocol.{ApplyMode, deploy, reapply, Message}
use deptool.Store.Repository.{Repository}
use deptool.FileSystem.{FileSystem, IoError}
use deptool.Io.{pure, fail, reads, when, ◌>>=◌, ◌>>◌}
use deptool.Plan.Changes.{SystemDiff, units_is_empty}
use deptool.Agent.Session.{Activate, Activation, DesiredState}
use deptool.Checkout.Links.{reconcile_managed_symlinks}
use deptool.Checkout.ConfigLinks.{reconcile_config_symlinks}
use deptool.Systemd.Text.{trim, trim_end}
use deptool.Systemd.Host.{
  Output, Systemd, Host, HostIo, emit, log, on_files, reconciled, for_subject,
}
use deptool.Systemd.Poll.{PendingRestart, job, patience, poll}

pub record SystemdActivator : Type 0 where
  pub apps_dir : PathBuf
  pub networkd_dir : PathBuf
  pub quadlets_dir : PathBuf
  pub sysusers_dir : PathBuf
  pub units_dir : PathBuf

abbrev pub verb : ApplyMode → String
verb (deploy _) = "restart"
verb reapply = "start"

abbrev verb_ing : ApplyMode → String
verb_ing (deploy _) = "restarting"
verb_ing reapply = "starting"

abbrev pub manages_systemd : DesiredState → SystemDiff PathBuf → Bool
manages_systemd desired changes =
    not (is_empty desired.quadlets)
    || not (is_empty desired.units)
    || not (units_is_empty changes.unit_actions)

abbrev pub touched_units : SystemDiff PathBuf → List String
touched_units changes = changes.unit_actions.enable ++ changes.unit_actions.restart

module _ {R : Repository} {F : FileSystem R} (S : Systemd F) where
  abbrev pub unless : Bool → ApplyError → HostIo F (Unit {0})
  unless true error = pure tt
  unless false error = fail (failed error)

  -- What a program has to say is shown, and its failure, or that it did not start, is the error.
  unfoldable pub tool_result :
      (String → Message) → String → ApplyError → Result IoError Output → HostIo F (Unit {0})
  tool_result shown command error (ok output) = do
    when (not (trim_end output.stderr == ""))
        (emit F (shown (command <> (":\n" <> trim_end output.stderr))))
    unless output.success error
  tool_result shown command error (err e) = do
    emit F (shown (command <> (": " <> e.message)))
    fail (failed error)

  abbrev networkctl_status : Result IoError Output → String
  networkctl_status (ok output) = output.stdout
  networkctl_status (err e) = "failed to run networkctl status: " <> e.message

  unfoldable pub reload_networkd : HostIo F (Unit {0})
  reload_networkd = do
    log F "running networkctl reload"
    result ← on_files F (S.run "networkctl" ("reload" ∷ []))
    tool_result Message.networkd_output "networkctl reload" networkd_reload_failed result
    status ← on_files F (S.run "networkctl" ("status" ∷ "--lines=5" ∷ []))
    emit F (Message.networkd_output ("networkctl status:\n" <> networkctl_status status))

  unfoldable pub run_sysusers : HostIo F (Unit {0})
  run_sysusers = do
    log F "running systemd-sysusers"
    result ← on_files F (S.run "systemd-sysusers" [])
    tool_result Message.sysusers_output "systemd-sysusers" sysusers_activation_failed result

  unfoldable pub systemctl_ok : List String → HostIo F (Unit {0})
  systemctl_ok args = on_files F (λ files. (tt, S.systemctl args files))

  unfoldable pub disable_units : List String → HostIo F (Unit {0})
  disable_units [] = pure tt
  disable_units (unit ∷ units) = do
    log F ("disabling " <> unit)
    systemctl_ok ("disable" ∷ "--no-reload" ∷ "--now" ∷ unit ∷ [])
    disable_units units

  unfoldable pub enable_units : List String → HostIo F (Unit {0})
  enable_units [] = pure tt
  enable_units (unit ∷ units) = do
    log F ("enabling " <> unit)
    systemctl_ok ("enable" ∷ "--no-reload" ∷ unit ∷ [])
    enable_units units

  abbrev pub spawned :
      ApplyMode → String → Result IoError S.Child → HostIo F (PendingRestart S.Child)
  spawned mode unit (ok child) = pure (record { unit = unit; state = job child })
  spawned mode unit (err e) = fail (
      failed
        (io ("failed to run systemctl " <> (verb mode <> (" " <> (unit <> (": " <> e.message)))))))

  unfoldable pub spawn_jobs : ApplyMode → List String → HostIo F (List (PendingRestart S.Child))
  spawn_jobs mode [] = pure []
  spawn_jobs mode (unit ∷ units) = do
    log F (verb_ing mode <> (" " <> unit))
    child ← on_files F (S.spawn (verb mode) unit)
    pending ← spawned mode unit child
    rest ← spawn_jobs mode units
    pure (pending ∷ rest)

  abbrev status_text : Result IoError Output → String
  status_text (ok output) = output.stdout <> output.stderr
  status_text (err e) = "failed to run systemctl status: " <> e.message

  abbrev pub verdict : List String → HostIo F (Unit {0})
  verdict [] = pure tt
  verdict (unit ∷ units) = fail (failed (systemd_activation_failed (unit ∷ units)))

  -- The units are restarted or started, and watched until they are up; `rounds` bounds the loop.
  unfoldable pub restart_units : ℕ → ApplyMode → List String → HostIo F (Unit {0})
  restart_units rounds mode touched = do
    restarts ← spawn_jobs mode touched
    now ← reads (λ h. S.monotonic_now h.files)
    failed_units ← poll S rounds touched restarts (now + patience) false
    status ← on_files F (S.run "systemctl" ("status" ∷ "--lines=5" ∷ touched))
    when (not (trim (status_text status) == ""))
        (emit F (Message.systemd_unit_status (status_text status)))
    verdict failed_units

  unfoldable pub reload_systemd : Bool → HostIo F (Unit {0})
  reload_systemd managed =
      when managed (do log F "daemon-reload"; systemctl_ok ("daemon-reload" ∷ []))

  -- All that comes before the units are restarted.
  unfoldable pub prepare_host :
      SystemdActivator → DesiredState → SystemDiff PathBuf → HostIo F (Unit {0})
  prepare_host dirs desired changes = do
    reconciled F (reconcile_config_symlinks F dirs.apps_dir changes.symlinks)
    reconciled F (
        for_subject F "networkd config symlinks"
          (reconcile_managed_symlinks F desired.networkd dirs.apps_dir dirs.networkd_dir))
    when changes.networkd.content_changed reload_networkd
    reconciled F (
        for_subject F "quadlet symlinks"
          (reconcile_managed_symlinks F desired.quadlets dirs.apps_dir dirs.quadlets_dir))
    reconciled F (
        for_subject F "sysuser symlinks"
          (reconcile_managed_symlinks F desired.sysusers dirs.apps_dir dirs.sysusers_dir))
    when changes.sysusers.content_changed run_sysusers
    disable_units changes.unit_actions.disable
    reconciled F (
        for_subject F "unit symlinks"
          (reconcile_managed_symlinks F desired.units dirs.apps_dir dirs.units_dir))
    enable_units (touched_units changes)
    reload_systemd (manages_systemd desired changes)

  unfoldable pub activate_host :
      ℕ → SystemdActivator → ApplyMode → DesiredState → SystemDiff PathBuf → HostIo F (Unit {0})
  activate_host rounds dirs mode desired changes = do
    prepare_host dirs desired changes
    when (not (is_empty (touched_units changes)))
        (restart_units rounds mode (touched_units changes))

  abbrev outcome_of : Result (Fault ApplyError) (Unit {0}) × Host F → Activation R F
  outcome_of (r, h) = record { result = r; files = h.files; messages = h.messages; lines = h.lines }

  -- The activator, as the agent calls it.
  unfoldable pub systemd_activate : ℕ → SystemdActivator → Activate R F
  systemd_activate rounds dirs mode desired changes files = outcome_of (
      activate_host rounds dirs mode desired changes
        (record { files = files; messages = []; lines = [] }))
