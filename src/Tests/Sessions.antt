-- ===== src/Tests/Sessions.antt =====
-- The theorems on an agent's session, at a host that runs commit `c0` and is asked to apply `c1`.
use deptool.Base.{◌≡◌, refl, suc, false, some, [], ◌∷◌, ok, string_ord}
use deptool.BTreeMap.{get, insert}
use deptool.Protocol.{apply, deploy, Message}
use deptool.Agent.Session.{
  AgentSession, Activate, SessionState, unlocked, locked, LogState, disabled,
}
use deptool.Agent.Lock.{handle_lock}
use deptool.Agent.Lock.Answers.{IsLockAnswer, handle_lock-IsLockAnswer}
use deptool.Agent.Requests.{handle_request}
use deptool.Agent.Final.{finals}
use deptool.Agent.Final.Answer.{handle_request-final}
use deptool.Tests.MemoryRepository.{memory_repository, Memory, example}
use deptool.Tests.JournalFiles.{journal_files}

abbrev deployed : Memory
deployed = record example {
  references = ("refs/heads/current", "c0") ∷ ("refs/heads/target", "c0") ∷ [];
}

abbrev session : SessionState → AgentSession memory_repository journal_files
session s = record {
  store = deployed;
  files = [];
  hostname = "web";
  apps_dir = "/var/lib/deptool/apps";
  lock_path = "/var/lib/deptool/store/deptool.lock";
  log_state = disabled;
  session = s;
  lines = [];
  emitted = [];
}

-- An activation that succeeds, and shows the status of a unit.
abbrev activator : Activate memory_repository journal_files
activator = λ mode desired changes files. record {
  result = ok tt;
  files = files;
  messages = Message.systemd_unit_status "app.service active" ∷ [];
  lines = [];
}

test_locks :
    (handle_lock memory_repository journal_files (some "c0") "ops" (session unlocked)).0 ≡ ok tt
unfolding deptool.Io.pure deptool.Io.fail deptool.Io.lift deptool.Io.reads deptool.Io.lift_reads
    deptool.Io.modify deptool.Io.◌>>=◌ deptool.Io.try deptool.Io.with_error deptool.BTreeMap.retain
    deptool.BTreeMap.get deptool.BTreeMap.insert deptool.Store.Repository.get_name
    deptool.Store.Refs.reflog_msg deptool.Store.Refs.tracking_ref deptool.Store.Refs.set_ref
    deptool.Store.Refs.delete_ref deptool.Store.Refs.ref_commit deptool.Store.Refs.current_commit
    deptool.Store.Refs.target_commit deptool.Store.Refs.get_config_string
    deptool.Store.Refs.get_deployed_hostname deptool.Store.Refs.set_deployed_hostname
    deptool.Store.Refs.get_commit_tree deptool.Store.Refs.tracking_loop
    deptool.Store.Refs.host_tracking_refs deptool.Store.Trees.entries_loop
    deptool.Store.Trees.tree_entries deptool.Store.Trees.find_tree deptool.Store.Trees.host_trees
    deptool.Store.Trees.get_host_apps deptool.Store.Trees.subdir_entries
    deptool.Store.Trees.subtree_oid deptool.Store.Trees.read_manifest
    deptool.Store.Trees.enabled_units deptool.Store.Desired.current_path
    deptool.Store.Desired.insert_names deptool.Store.Desired.insert_links
    deptool.Store.Desired.subdir_links deptool.Store.Desired.desired_subdir_symlinks
    deptool.Store.Desired.manifest_links deptool.Store.Desired.desired_symlinks
    deptool.Store.Desired.desired_networkd deptool.Store.Desired.desired_quadlets
    deptool.Store.Desired.desired_sysusers deptool.Store.Desired.desired_units
    deptool.Agent.Session.format_opt_oid deptool.Agent.Session.log
    deptool.Agent.Session.emit_message deptool.Agent.Session.on_disk deptool.Agent.Session.on_store
    deptool.Agent.Session.from_store deptool.Agent.Session.run_activation
    deptool.Agent.Session.activate deptool.Agent.Lock.check_deployed_hostname
    deptool.Agent.Lock.drop_lock deptool.Agent.Lock.open_log deptool.Agent.Lock.grant_lock
    deptool.Agent.Lock.refuse_lock deptool.Agent.Lock.finish_lock deptool.Agent.Lock.claim_lock_file
    deptool.Agent.Lock.after_flock deptool.Agent.Lock.handle_lock deptool.Agent.Apply.set_target_ref
    deptool.Agent.Apply.prepare_apply deptool.Agent.Apply.desired_state
    deptool.Agent.Apply.checkout_apps deptool.Agent.Apply.try_rollback
    deptool.Agent.Apply.handle_rollback deptool.Agent.Apply.complete_apply
    deptool.Agent.Apply.after_activation deptool.Agent.Apply.apply_modification
    deptool.Agent.Requests.handle_receive_pack deptool.Agent.Requests.handle_request_objects
    deptool.Agent.Requests.apply_prepared deptool.Agent.Requests.handle_apply
    deptool.Agent.Requests.handle_request
test_locks = refl

handle_lock-IsLockAnswer_example :
    IsLockAnswer memory_repository journal_files
      (some "c0")
      "ops"
      (session unlocked)
      (handle_lock memory_repository journal_files (some "c0") "ops" (session unlocked)).1
handle_lock-IsLockAnswer_example =
    handle_lock-IsLockAnswer memory_repository journal_files (some "c0") "ops" (session unlocked)
      test_locks

-- The apply completes, and the host's current commit is the new one.
test_applies :
    ((handle_request memory_repository journal_files activator
        (apply "c1" (deploy false))
        (session (locked "ops"))).0
      ≡ ok tt)
    × (get "refs/heads/current"
          (handle_request memory_repository journal_files activator
            (apply "c1" (deploy false))
            (session (locked "ops"))).1.store.references
        ≡ some "c1")
unfolding deptool.Io.pure deptool.Io.fail deptool.Io.lift deptool.Io.reads deptool.Io.lift_reads
    deptool.Io.modify deptool.Io.◌>>=◌ deptool.Io.try deptool.Io.with_error deptool.BTreeMap.retain
    deptool.BTreeMap.get deptool.BTreeMap.insert deptool.BTreeMap.Set.collect
    deptool.BTreeMap.Set.difference deptool.Types.oid_prefix deptool.Types.join_texts
    deptool.Types.join deptool.Store.Repository.get_name deptool.Store.Refs.reflog_msg
    deptool.Store.Refs.tracking_ref deptool.Store.Refs.set_ref deptool.Store.Refs.delete_ref
    deptool.Store.Refs.ref_commit deptool.Store.Refs.current_commit deptool.Store.Refs.target_commit
    deptool.Store.Refs.get_config_string deptool.Store.Refs.get_deployed_hostname
    deptool.Store.Refs.set_deployed_hostname deptool.Store.Refs.get_commit_tree
    deptool.Store.Refs.tracking_loop deptool.Store.Refs.host_tracking_refs
    deptool.Store.Trees.entries_loop deptool.Store.Trees.tree_entries deptool.Store.Trees.find_tree
    deptool.Store.Trees.host_trees deptool.Store.Trees.get_host_apps
    deptool.Store.Trees.subdir_entries deptool.Store.Trees.subtree_oid
    deptool.Store.Trees.read_manifest deptool.Store.Trees.enabled_units
    deptool.Store.Desired.current_path deptool.Store.Desired.insert_names
    deptool.Store.Desired.insert_links deptool.Store.Desired.subdir_links
    deptool.Store.Desired.desired_subdir_symlinks deptool.Store.Desired.manifest_links
    deptool.Store.Desired.desired_symlinks deptool.Store.Desired.desired_networkd
    deptool.Store.Desired.desired_quadlets deptool.Store.Desired.desired_sysusers
    deptool.Store.Desired.desired_units deptool.Plan.Changes.old_tree deptool.Plan.Changes.new_tree
    deptool.Plan.Changes.is_rollback_safe deptool.Plan.Changes.subdir_append
    deptool.Plan.Changes.units_append deptool.Plan.Changes.symlinks_append
    deptool.Plan.Changes.append deptool.Plan.Changes.map_symlinks
    deptool.Plan.Changes.resolve_symlinks deptool.Plan.Diff.enabled_loop
    deptool.Plan.Diff.disabled_loop deptool.Plan.Diff.diff_enabled deptool.Plan.Diff.links_loop
    deptool.Plan.Diff.unlinks_loop deptool.Plan.Diff.diff_symlinks deptool.Plan.Diff.changed_step
    deptool.Plan.Diff.changed_loop deptool.Plan.Diff.removed_step deptool.Plan.Diff.removed_loop
    deptool.Plan.Diff.diff_apps deptool.Plan.Diff.subdir_changes
    deptool.Plan.Diff.compute_system_diff deptool.Plan.Diff.compute_app_plan
    deptool.Plan.Diff.get_apps deptool.Plan.Diff.system_loop deptool.Plan.Diff.diff_host
    deptool.Checkout.Disk.io_failed deptool.Checkout.Disk.removal_failed deptool.Checkout.Disk.log
    deptool.Checkout.Disk.create_dir_all deptool.Checkout.Disk.remove_dir_all
    deptool.Checkout.Disk.remove_file deptool.Checkout.Disk.rename
    deptool.Checkout.Disk.set_permissions deptool.Checkout.Disk.symlink
    deptool.Checkout.Apps.store_checkout_app deptool.Checkout.Apps.materialize
    deptool.Checkout.Apps.rotate deptool.Checkout.Apps.checkout_app deptool.Checkout.Apps.remove_app
    deptool.Checkout.Apps.checkout_change deptool.Checkout.Apps.checkout deptool.Checkout.Gc.kept
    deptool.Checkout.Gc.remove_old deptool.Checkout.Gc.gc_entries deptool.Checkout.Gc.gc_app_dir
    deptool.Checkout.Gc.gc_apps deptool.Checkout.Gc.gc_old_checkouts
    deptool.Agent.Session.format_opt_oid deptool.Agent.Session.log
    deptool.Agent.Session.emit_message deptool.Agent.Session.on_disk deptool.Agent.Session.on_store
    deptool.Agent.Session.from_store deptool.Agent.Session.run_activation
    deptool.Agent.Session.activate deptool.Agent.Lock.check_deployed_hostname
    deptool.Agent.Lock.drop_lock deptool.Agent.Lock.open_log deptool.Agent.Lock.grant_lock
    deptool.Agent.Lock.refuse_lock deptool.Agent.Lock.finish_lock deptool.Agent.Lock.claim_lock_file
    deptool.Agent.Lock.after_flock deptool.Agent.Lock.handle_lock deptool.Agent.Apply.set_target_ref
    deptool.Agent.Apply.prepare_apply deptool.Agent.Apply.desired_state
    deptool.Agent.Apply.checkout_apps deptool.Agent.Apply.try_rollback
    deptool.Agent.Apply.handle_rollback deptool.Agent.Apply.complete_apply
    deptool.Agent.Apply.after_activation deptool.Agent.Apply.apply_modification
    deptool.Agent.Requests.handle_receive_pack deptool.Agent.Requests.handle_request_objects
    deptool.Agent.Requests.apply_prepared deptool.Agent.Requests.handle_apply
    deptool.Agent.Requests.handle_request deptool.Error.display_store_error
    deptool.Error.apply_error_of_store deptool.Error.display_apply_error
    deptool.Error.display_host_error
test_applies = (refl, refl)

handle_request-final_example :
    finals memory_repository journal_files
      (handle_request memory_repository journal_files activator
        (apply "c1" (deploy false))
        (session (locked "ops"))).1
    ≡ suc (finals memory_repository journal_files (session (locked "ops")))
handle_request-final_example =
    handle_request-final memory_repository journal_files activator
      (λ mode desired changes files. refl) "c1" (deploy false) (session (locked "ops"))
      test_applies.0
