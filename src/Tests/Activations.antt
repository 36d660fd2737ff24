-- ===== src/Tests/Activations.antt =====
-- The theorems on the activation of units and on a reapply, at concrete inputs.
use deptool.Base.{
  ◌≡◌, ◌≢◌, refl, map, failed, false, some, none, List, [], ◌∷◌, ok, err, suc, arith, Result,
}
use deptool.Protocol.{apply, deploy, reapply, Message}
use deptool.Agent.Session.{AgentSession, DesiredState, Activate, SessionState, locked, disabled}
use deptool.Agent.Requests.{handle_request}
use deptool.Agent.Final.{finals}
use deptool.Error.{HostError, ApplyError}
use deptool.Deploy.Connection.{Transport, Driver}
use deptool.Deploy.Progress.{applying}
use deptool.Deploy.Messages.{was_rolled_back}
use deptool.Deploy.Run.{read_outcome}
use deptool.Reapply.Forward.{reapply-not_rolled_back}
use deptool.Systemd.Host.{Systemd, Host, Output}
use deptool.Systemd.Units.{UnitStatus}
use deptool.Systemd.Poll.{PendingRestart, settling, job_done, poll}
use deptool.Systemd.Poll.Ends.{HasEnded, poll-HasEnded}
use deptool.Types.{PathBuf}
use deptool.Plan.Changes.{SystemDiff, no_subdir_changes}
use deptool.Systemd.Poll.Verdict.{IsVerdict, poll-IsVerdict}
use deptool.Systemd.Success.{WasWatched, activate-WasWatched}
use deptool.Systemd.Activate.{SystemdActivator, systemd_activate}
use deptool.Systemd.Quiet.{systemd_request-final}
use deptool.Tests.Machine.{clock_files, machine, clock_laws}
use deptool.Tests.MemoryRepository.{memory_repository, Memory, example}

abbrev idle : Host clock_files
idle = record { files = 7; messages = []; lines = [] }

abbrev pending : List (PendingRestart (Unit {0}))
pending = record { unit = "app.service"; state = job_done } ∷ []

poll-HasEnded_example :
    HasEnded (poll machine 101 ("app.service" ∷ []) pending 10700000000 false idle).0
poll-HasEnded_example =
    poll-HasEnded machine clock_laws 100 ("app.service" ∷ []) pending 10700000000 false idle refl
      (omega arith)

test_polls : (poll machine 101 ("app.service" ∷ []) pending 10700000000 false idle).0 ≡ ok []
unfolding deptool.Io.pure deptool.Io.fail deptool.Io.lift deptool.Io.reads deptool.Io.lift_reads
    deptool.Io.modify deptool.Io.◌>>=◌ deptool.Systemd.Text.trim_start deptool.Systemd.Text.trim_end
    deptool.Systemd.Text.trim deptool.Systemd.Text.lines deptool.Systemd.Text.split_blocks
    deptool.Systemd.Text.strip_key deptool.Systemd.Text.parse_digits deptool.Systemd.Text.parse_u64
    deptool.Systemd.Units.prop_of deptool.Systemd.Units.restarts_of
    deptool.Systemd.Units.from_show_block deptool.Systemd.Units.activation
    deptool.Systemd.Units.settled deptool.Systemd.Host.emit deptool.Systemd.Host.log
    deptool.Systemd.Host.on_files deptool.Systemd.Host.reconciled deptool.Systemd.Poll.with_baseline
    deptool.Systemd.Poll.judge_unit deptool.Systemd.Poll.judge deptool.Systemd.Poll.parse_blocks
    deptool.Systemd.Poll.read_report deptool.Systemd.Poll.reap_one deptool.Systemd.Poll.reap
    deptool.Systemd.Poll.read_statuses deptool.Systemd.Poll.stop_waiting deptool.Systemd.Poll.poll
test_polls = refl

poll-IsVerdict_example :
    IsVerdict machine
      ("app.service" ∷ [])
      (record { restarts = pending; deadline = 10700000000; files = 7 })
      []
poll-IsVerdict_example =
    poll-IsVerdict machine 101 ("app.service" ∷ []) pending 10700000000 false idle refl test_polls

abbrev dirs : SystemdActivator
dirs = record {
  apps_dir = "/var/lib/deptool/apps";
  networkd_dir = "/etc/systemd/network";
  quadlets_dir = "/etc/containers/systemd";
  sysusers_dir = "/etc/sysusers.d";
  units_dir = "/etc/systemd/system";
}

abbrev desired : DesiredState
desired = record { networkd = []; quadlets = []; sysusers = []; units = [] }

abbrev changes : SystemDiff PathBuf
changes = record {
  networkd = no_subdir_changes;
  quadlets = no_subdir_changes;
  symlinks = record { create = []; remove = []; change = [] };
  sysusers = no_subdir_changes;
  units = no_subdir_changes;
  unit_actions = record { enable = "app.service" ∷ []; restart = []; disable = [] };
}

test_activates : (systemd_activate machine 200 dirs (deploy false) desired changes 0).result ≡ ok tt
unfolding deptool.Io.pure deptool.Io.fail deptool.Io.lift deptool.Io.reads deptool.Io.lift_reads
    deptool.Io.modify deptool.Io.◌>>=◌ deptool.Systemd.Text.trim_start deptool.Systemd.Text.trim_end
    deptool.Systemd.Text.trim deptool.Systemd.Text.lines deptool.Systemd.Text.split_blocks
    deptool.Systemd.Text.strip_key deptool.Systemd.Text.parse_digits deptool.Systemd.Text.parse_u64
    deptool.Systemd.Units.prop_of deptool.Systemd.Units.restarts_of
    deptool.Systemd.Units.from_show_block deptool.Systemd.Units.activation
    deptool.Systemd.Units.settled deptool.Systemd.Host.emit deptool.Systemd.Host.log
    deptool.Systemd.Host.on_files deptool.Systemd.Host.reconciled deptool.Systemd.Poll.with_baseline
    deptool.Systemd.Poll.judge_unit deptool.Systemd.Poll.judge deptool.Systemd.Poll.parse_blocks
    deptool.Systemd.Poll.read_report deptool.Systemd.Poll.reap_one deptool.Systemd.Poll.reap
    deptool.Systemd.Poll.read_statuses deptool.Systemd.Poll.stop_waiting deptool.Systemd.Poll.poll
    deptool.Systemd.Activate.tool_result deptool.Systemd.Activate.reload_networkd
    deptool.Systemd.Activate.run_sysusers deptool.Systemd.Activate.systemctl_ok
    deptool.Systemd.Activate.disable_units deptool.Systemd.Activate.enable_units
    deptool.Systemd.Activate.spawn_jobs deptool.Systemd.Activate.restart_units
    deptool.Systemd.Activate.reload_systemd deptool.Systemd.Activate.prepare_host
    deptool.Systemd.Activate.activate_host deptool.Systemd.Activate.systemd_activate
    deptool.Checkout.Links.points_through_current deptool.Checkout.Links.read_dir_if_exists
    deptool.Checkout.Links.read_link deptool.Checkout.Links.note_link
    deptool.Checkout.Links.collect_entry deptool.Checkout.Links.collect_entries
    deptool.Checkout.Links.collect_into deptool.Checkout.Links.collect_managed_symlinks
    deptool.Checkout.Links.open_levels deptool.Checkout.Links.create_managed_dir
    deptool.Checkout.Links.try_remove_dir deptool.Checkout.Links.prune_levels
    deptool.Checkout.Links.prune_empty_dirs deptool.Checkout.Links.remove_link
    deptool.Checkout.Links.write_link deptool.Checkout.Links.remove_links
    deptool.Checkout.Links.write_links deptool.Checkout.Links.reconcile_managed_symlinks
    deptool.Checkout.ConfigLinks.metadata deptool.Checkout.ConfigLinks.read
    deptool.Checkout.ConfigLinks.compare_files deptool.Checkout.ConfigLinks.classify_files
    deptool.Checkout.ConfigLinks.classify_link deptool.Checkout.ConfigLinks.verify_managed
    deptool.Checkout.ConfigLinks.failure_cause deptool.Checkout.ConfigLinks.after_symlink
    deptool.Checkout.ConfigLinks.create_symlink deptool.Checkout.ConfigLinks.remove_managed
    deptool.Checkout.ConfigLinks.remove_all deptool.Checkout.ConfigLinks.change_all
    deptool.Checkout.ConfigLinks.create_all deptool.Checkout.ConfigLinks.reconcile_config_symlinks
    deptool.Checkout.Disk.io_failed deptool.Checkout.Disk.removal_failed deptool.Checkout.Disk.log
    deptool.Checkout.Disk.create_dir_all deptool.Checkout.Disk.remove_dir_all
    deptool.Checkout.Disk.remove_file deptool.Checkout.Disk.rename
    deptool.Checkout.Disk.set_permissions deptool.Checkout.Disk.symlink deptool.BTreeMap.retain
    deptool.BTreeMap.get deptool.BTreeMap.insert deptool.Types.join deptool.Types.parent
    deptool.Types.starts_with_path deptool.Io.try deptool.Io.with_error
test_activates = refl

activate-WasWatched_example :
    WasWatched machine dirs (deploy false) desired changes 0 ("app.service" ∷ [])
activate-WasWatched_example =
    activate-WasWatched machine 200 dirs (deploy false) desired changes 0 refl test_activates

abbrev deployed : Memory
deployed = record example {
  references = ("refs/heads/current", "c0") ∷ ("refs/heads/target", "c0") ∷ [];
}

abbrev session : SessionState → AgentSession memory_repository clock_files
session s = record {
  store = deployed;
  files = 0;
  hostname = "web";
  apps_dir = "/var/lib/deptool/apps";
  lock_path = "/var/lib/deptool/store/deptool.lock";
  log_state = disabled;
  session = s;
  lines = [];
  emitted = [];
}

test_restarts :
    (handle_request memory_repository clock_files
      (systemd_activate machine 200 dirs)
      (apply "c1" (deploy false))
      (session (locked "ops"))).0
    ≡ ok tt
unfolding deptool.Io.pure deptool.Io.fail deptool.Io.lift deptool.Io.reads deptool.Io.lift_reads
    deptool.Io.modify deptool.Io.◌>>=◌ deptool.Io.try deptool.Io.with_error deptool.BTreeMap.retain
    deptool.BTreeMap.get deptool.BTreeMap.insert deptool.BTreeMap.Set.collect
    deptool.BTreeMap.Set.difference deptool.Types.oid_prefix deptool.Types.join_texts
    deptool.Types.join deptool.Store.Repository.get_name deptool.Store.Refs.reflog_msg
    deptool.Store.Refs.tracking_ref deptool.Store.Refs.set_ref deptool.Store.Refs.delete_ref
    deptool.Store.Refs.ref_commit deptool.Store.Refs.current_commit deptool.Store.Refs.target_commit
    deptool.Store.Refs.get_config_string deptool.Store.Refs.get_deployed_hostname
    deptool.Store.Refs.set_deployed_hostname deptool.Store.Refs.get_commit_tree
    deptool.Store.Refs.tracking_loop deptool.Store.Refs.host_tracking_refs
    deptool.Store.Trees.entries_loop deptool.Store.Trees.tree_entries deptool.Store.Trees.find_tree
    deptool.Store.Trees.host_trees deptool.Store.Trees.get_host_apps
    deptool.Store.Trees.subdir_entries deptool.Store.Trees.subtree_oid
    deptool.Store.Trees.read_manifest deptool.Store.Trees.enabled_units
    deptool.Store.Desired.current_path deptool.Store.Desired.insert_names
    deptool.Store.Desired.insert_links deptool.Store.Desired.subdir_links
    deptool.Store.Desired.desired_subdir_symlinks deptool.Store.Desired.manifest_links
    deptool.Store.Desired.desired_symlinks deptool.Store.Desired.desired_networkd
    deptool.Store.Desired.desired_quadlets deptool.Store.Desired.desired_sysusers
    deptool.Store.Desired.desired_units deptool.Plan.Changes.old_tree deptool.Plan.Changes.new_tree
    deptool.Plan.Changes.is_rollback_safe deptool.Plan.Changes.subdir_append
    deptool.Plan.Changes.units_append deptool.Plan.Changes.symlinks_append
    deptool.Plan.Changes.append deptool.Plan.Changes.map_symlinks
    deptool.Plan.Changes.resolve_symlinks deptool.Plan.Diff.enabled_loop
    deptool.Plan.Diff.disabled_loop deptool.Plan.Diff.diff_enabled deptool.Plan.Diff.links_loop
    deptool.Plan.Diff.unlinks_loop deptool.Plan.Diff.diff_symlinks deptool.Plan.Diff.changed_step
    deptool.Plan.Diff.changed_loop deptool.Plan.Diff.removed_step deptool.Plan.Diff.removed_loop
    deptool.Plan.Diff.diff_apps deptool.Plan.Diff.subdir_changes
    deptool.Plan.Diff.compute_system_diff deptool.Plan.Diff.compute_app_plan
    deptool.Plan.Diff.get_apps deptool.Plan.Diff.system_loop deptool.Plan.Diff.diff_host
    deptool.Checkout.Disk.io_failed deptool.Checkout.Disk.removal_failed deptool.Checkout.Disk.log
    deptool.Checkout.Disk.create_dir_all deptool.Checkout.Disk.remove_dir_all
    deptool.Checkout.Disk.remove_file deptool.Checkout.Disk.rename
    deptool.Checkout.Disk.set_permissions deptool.Checkout.Disk.symlink
    deptool.Checkout.Apps.store_checkout_app deptool.Checkout.Apps.materialize
    deptool.Checkout.Apps.rotate deptool.Checkout.Apps.checkout_app deptool.Checkout.Apps.remove_app
    deptool.Checkout.Apps.checkout_change deptool.Checkout.Apps.checkout deptool.Checkout.Gc.kept
    deptool.Checkout.Gc.remove_old deptool.Checkout.Gc.gc_entries deptool.Checkout.Gc.gc_app_dir
    deptool.Checkout.Gc.gc_apps deptool.Checkout.Gc.gc_old_checkouts
    deptool.Agent.Session.format_opt_oid deptool.Agent.Session.log
    deptool.Agent.Session.emit_message deptool.Agent.Session.on_disk deptool.Agent.Session.on_store
    deptool.Agent.Session.from_store deptool.Agent.Session.run_activation
    deptool.Agent.Session.activate deptool.Agent.Lock.check_deployed_hostname
    deptool.Agent.Lock.drop_lock deptool.Agent.Lock.open_log deptool.Agent.Lock.grant_lock
    deptool.Agent.Lock.refuse_lock deptool.Agent.Lock.finish_lock deptool.Agent.Lock.claim_lock_file
    deptool.Agent.Lock.after_flock deptool.Agent.Lock.handle_lock deptool.Agent.Apply.set_target_ref
    deptool.Agent.Apply.prepare_apply deptool.Agent.Apply.desired_state
    deptool.Agent.Apply.checkout_apps deptool.Agent.Apply.try_rollback
    deptool.Agent.Apply.handle_rollback deptool.Agent.Apply.complete_apply
    deptool.Agent.Apply.after_activation deptool.Agent.Apply.apply_modification
    deptool.Agent.Requests.handle_receive_pack deptool.Agent.Requests.handle_request_objects
    deptool.Agent.Requests.apply_prepared deptool.Agent.Requests.handle_apply
    deptool.Agent.Requests.handle_request deptool.Error.display_store_error
    deptool.Error.apply_error_of_store deptool.Error.display_apply_error
    deptool.Error.display_host_error deptool.Systemd.Text.trim_start deptool.Systemd.Text.trim_end
    deptool.Systemd.Text.trim deptool.Systemd.Text.lines deptool.Systemd.Text.split_blocks
    deptool.Systemd.Text.strip_key deptool.Systemd.Text.parse_digits deptool.Systemd.Text.parse_u64
    deptool.Systemd.Units.prop_of deptool.Systemd.Units.restarts_of
    deptool.Systemd.Units.from_show_block deptool.Systemd.Units.activation
    deptool.Systemd.Units.settled deptool.Systemd.Host.emit deptool.Systemd.Host.log
    deptool.Systemd.Host.on_files deptool.Systemd.Host.reconciled deptool.Systemd.Poll.with_baseline
    deptool.Systemd.Poll.judge_unit deptool.Systemd.Poll.judge deptool.Systemd.Poll.parse_blocks
    deptool.Systemd.Poll.read_report deptool.Systemd.Poll.reap_one deptool.Systemd.Poll.reap
    deptool.Systemd.Poll.read_statuses deptool.Systemd.Poll.stop_waiting deptool.Systemd.Poll.poll
    deptool.Systemd.Activate.tool_result deptool.Systemd.Activate.reload_networkd
    deptool.Systemd.Activate.run_sysusers deptool.Systemd.Activate.systemctl_ok
    deptool.Systemd.Activate.disable_units deptool.Systemd.Activate.enable_units
    deptool.Systemd.Activate.spawn_jobs deptool.Systemd.Activate.restart_units
    deptool.Systemd.Activate.reload_systemd deptool.Systemd.Activate.prepare_host
    deptool.Systemd.Activate.activate_host deptool.Systemd.Activate.systemd_activate
    deptool.Checkout.Links.points_through_current deptool.Checkout.Links.read_dir_if_exists
    deptool.Checkout.Links.read_link deptool.Checkout.Links.note_link
    deptool.Checkout.Links.collect_entry deptool.Checkout.Links.collect_entries
    deptool.Checkout.Links.collect_into deptool.Checkout.Links.collect_managed_symlinks
    deptool.Checkout.Links.open_levels deptool.Checkout.Links.create_managed_dir
    deptool.Checkout.Links.try_remove_dir deptool.Checkout.Links.prune_levels
    deptool.Checkout.Links.prune_empty_dirs deptool.Checkout.Links.remove_link
    deptool.Checkout.Links.write_link deptool.Checkout.Links.remove_links
    deptool.Checkout.Links.write_links deptool.Checkout.Links.reconcile_managed_symlinks
    deptool.Checkout.ConfigLinks.metadata deptool.Checkout.ConfigLinks.read
    deptool.Checkout.ConfigLinks.compare_files deptool.Checkout.ConfigLinks.classify_files
    deptool.Checkout.ConfigLinks.classify_link deptool.Checkout.ConfigLinks.verify_managed
    deptool.Checkout.ConfigLinks.failure_cause deptool.Checkout.ConfigLinks.after_symlink
    deptool.Checkout.ConfigLinks.create_symlink deptool.Checkout.ConfigLinks.remove_managed
    deptool.Checkout.ConfigLinks.remove_all deptool.Checkout.ConfigLinks.change_all
    deptool.Checkout.ConfigLinks.create_all deptool.Checkout.ConfigLinks.reconcile_config_symlinks
    deptool.Types.parent deptool.Types.starts_with_path
test_restarts = refl

systemd_request-final_example :
    finals memory_repository clock_files
      (handle_request memory_repository clock_files
        (systemd_activate machine 200 dirs)
        (apply "c1" (deploy false))
        (session (locked "ops"))).1
    ≡ suc (finals memory_repository clock_files (session (locked "ops")))
systemd_request-final_example =
    systemd_request-final machine 200 dirs "c1" (deploy false) (session (locked "ops"))
      test_restarts

-- A connection that has left what the agent sends.
abbrev transport : Transport
transport = record {
  Conn = List (Result HostError Message);
  World = Unit {0};
  connect = λ host w. (ok [], w);
  install = λ host w. (ok tt, w);
  hello = λ c. record {
    version = "1.0";
    build_commit = "b";
    hostname = "web";
    current_commit = some "c0";
    target_commit = some "c0";
  };
  send_request = λ request c. (ok tt, c);
  read_message = λ c. (ok none, c);
  close = λ c. c;
  rest = λ c. c;
  version = "1.0";
  build_commit = "b";
  debug = λ m. "";
}

abbrev activator : Activate memory_repository clock_files
activator = λ mode desired changes files. record {
  result = err (failed (ApplyError.networkd_reload_failed));
  files = files;
  messages = Message.systemd_unit_status "app.service failed" ∷ [];
  lines = [];
}

abbrev driver : Driver memory_repository transport
driver = record {
  store = example;
  world = tt;
  progress = record { states = ("web", applying) ∷ []; log = [] };
}

abbrev sent : List Message
sent =
    (handle_request memory_repository clock_files activator (apply "c1" reapply)
      (session (locked "ops"))).1.emitted

reapply-not_rolled_back_example :
    (read_outcome memory_repository transport
      (λ text. text ∷ [])
      (λ text. text)
      "web"
      (map ok sent)
      driver).0
    ≢ ok was_rolled_back
reapply-not_rolled_back_example =
    reapply-not_rolled_back memory_repository transport (λ text. text ∷ []) (λ text. text)
      clock_files activator (λ mode desired changes files. refl) "web" (map ok sent) "c1"
      (session (locked "ops")) driver refl refl
