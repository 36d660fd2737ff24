-- ===== src/Agent/Apply.antt =====
-- src/agent.rs: the apply request: its preparation, the modification of the host, and the rollback.
use deptool.Base.{
  String, ◌<>◌, Bool, true, false, Option, none, some, Result, ok, err, failed, map_err, string_ord,
  attempt, ◌&&◌, not, ◌||◌,
}
use deptool.BTreeMap.{BTreeMap}
use deptool.Types.{Oid, PathBuf, oid_prefix}
use deptool.Error.{ApplyError, store, display_apply_error}
use deptool.Protocol.{
  ApplyMode, deploy, reapply, apply_complete, rolling_back, rolled_back, rollback_failed,
}
use deptool.Store.Repository.{Repository}
use deptool.Store.Refs.{
  set_target, set_current, rollback, set_ref, set_deployed_hostname, target_commit,
}
use deptool.Store.Desired.{desired_networkd, desired_quadlets, desired_sysusers, desired_units}
use deptool.FileSystem.{FileSystem}
use deptool.Io.{assert_io, pure, fail, lift_reads, reads, try, ◌>>=◌, ◌>>◌}
use deptool.Plan.Changes.{AppDiff, SystemDiff, is_rollback_safe}
use deptool.Plan.Diff.{diff_host}
use deptool.Checkout.Apps.{CheckoutMode, fresh, reuse, checkout}
use deptool.Checkout.Gc.{gc_old_checkouts}
use deptool.Agent.Session.{
  Action, Activate, ApplyContext, DesiredState, no_desired_state, format_opt_oid, log, emit_message,
  on_disk, on_store, from_store, activate,
}
use deptool.Agent.Lock.{same_commit}

abbrev same_bool : Bool → Bool → Bool
same_bool a b = (a && b) || (not a && not b)

module _ (R : Repository) (F : FileSystem R) where
  -- What the diff starts from: nothing, if every app is to be materialized again.
  abbrev pub diff_base : ApplyMode → Option Oid → Option Oid
  diff_base (deploy _) current = current
  diff_base reapply current = none

  abbrev preparing : ApplyContext → ApplyMode → String
  preparing ctx (deploy _) =
      "deploying "
      <> (format_opt_oid ctx.current_commit <> (" -> " <> oid_prefix ctx.target_commit))
  preparing ctx reapply = "reapplying " <> oid_prefix ctx.target_commit

  abbrev pub check_descends : Oid → Option Oid → Action R F (Unit {0})
  check_descends target none = pure tt
  check_descends target (some current) = do
    is_descendant ← lift_reads (λ a.
        attempt (map_err (λ e. store e.message) (R.graph_descendant_of a.store target current)))
    assert_io is_descendant "target commit descends from current commit"

  -- The checks of the mode, and the target reference of a deploy.
  unfoldable pub set_target_ref :
      ApplyContext → SystemDiff PathBuf → ApplyMode → Action R F (Unit {0})
  set_target_ref ctx system (deploy safe) = do
    check_descends ctx.target_commit ctx.current_commit
    assert_io (same_bool (is_rollback_safe system) safe)
        "agent and driver disagree on rollback safety"
    on_store R F (λ s. set_ref R s "refs/heads/target" ctx.target_commit (set_target ctx.operator))
  set_target_ref ctx system reapply = do
    assert_io (same_commit ctx.current_commit (some ctx.target_commit))
        "reapply target is the host's current commit"
    target ← reads (λ a. target_commit R a.store)
    assert_io (same_commit target (some ctx.target_commit))
        "reapply target is the host's target commit"

  unfoldable pub prepare_apply :
      ApplyContext → Action R F (BTreeMap String AppDiff × SystemDiff PathBuf)
  prepare_apply ctx = do
    log R F (preparing ctx ctx.mode)
    host ← reads (λ a. a.hostname)
    apps_dir ← reads (λ a. a.apps_dir)
    diffs ← from_store R F (λ s.
        diff_host R s host apps_dir (diff_base ctx.mode ctx.current_commit)
          (some ctx.target_commit))
    set_target_ref ctx diffs.1 ctx.mode
    pure diffs

  unfoldable pub desired_state : Oid → Action R F DesiredState
  desired_state commit_oid = do
    host ← reads (λ a. a.hostname)
    apps_dir ← reads (λ a. a.apps_dir)
    networkd ← from_store R F (λ s. desired_networkd R s commit_oid host apps_dir)
    quadlets ← from_store R F (λ s. desired_quadlets R s commit_oid host apps_dir)
    sysusers ← from_store R F (λ s. desired_sysusers R s commit_oid host apps_dir)
    units ← from_store R F (λ s. desired_units R s commit_oid host apps_dir)
    pure (record { networkd = networkd; quadlets = quadlets; sysusers = sysusers; units = units })

  unfoldable pub checkout_apps :
      Option Oid → BTreeMap String AppDiff → CheckoutMode → Action R F (Unit {0})
  checkout_apps commit_oid diffs mode a =
      on_disk R F (checkout F a.store commit_oid diffs a.hostname a.apps_dir mode) a

  abbrev pub desired_or_default : Option Oid → Action R F DesiredState
  desired_or_default none = pure no_desired_state
  desired_or_default (some oid) = desired_state oid

  -- A first deploy has no commit to point the target at.
  abbrev pub reset_target : String → Option Oid → Action R F (Unit {0})
  reset_target operator none = pure tt
  reset_target operator (some good) =
      on_store R F (λ s. set_ref R s "refs/heads/target" good (rollback operator))

  unfoldable pub try_rollback : Activate R F → ApplyContext → Action R F (Unit {0})
  try_rollback activator ctx = do
    host ← reads (λ a. a.hostname)
    apps_dir ← reads (λ a. a.apps_dir)
    diffs ←
        from_store R F
          (λ s. diff_host R s host apps_dir (some ctx.target_commit) ctx.current_commit)
    checkout_apps ctx.current_commit diffs.0 reuse
    desired ← desired_or_default ctx.current_commit
    activate R F activator ctx.mode desired diffs.1
    reset_target ctx.operator ctx.current_commit

  abbrev pub report_rollback : ApplyError → Result ApplyError (Unit {0}) → Action R F (Unit {0})
  report_rollback error (err rollback_error) = do
    log R F ("rollback failed: " <> display_apply_error rollback_error)
    emit_message R F (rollback_failed error rollback_error)
  report_rollback error (ok _) = do
    log R F "rollback complete"
    emit_message R F (rolled_back error)

  unfoldable pub handle_rollback : Activate R F → ApplyError → ApplyContext → Action R F (Unit {0})
  handle_rollback activator error ctx = do
    log R F "rolling back"
    emit_message R F rolling_back
    attempted ← try (try_rollback activator ctx)
    report_rollback error attempted

  abbrev pub rollback_on_failure : ApplyMode → SystemDiff PathBuf → Bool
  rollback_on_failure (deploy _) system = is_rollback_safe system
  rollback_on_failure reapply system = false

  abbrev action_name : ApplyMode → String
  action_name (deploy _) = "deploy"
  action_name reapply = "reapply"

  -- What follows an activation that succeeded.
  unfoldable pub complete_apply : ApplyContext → SystemDiff PathBuf → Action R F (Unit {0})
  complete_apply ctx system = do
    on_store R F
        (λ s. set_ref R s "refs/heads/current" ctx.target_commit (set_current ctx.operator))
    host ← reads (λ a. a.hostname)
    on_store R F (λ s. set_deployed_hostname R s host)
    apps_dir ← reads (λ a. a.apps_dir)
    on_disk R F (gc_old_checkouts F apps_dir)
    log R F (action_name ctx.mode <> (" complete (" <> (oid_prefix ctx.target_commit <> ")")))
    emit_message R F (
        apply_complete ctx.target_commit system.unit_actions.enable system.unit_actions.restart
          system.unit_actions.disable)

  -- A failed activation, which is rolled back if it may be.
  abbrev pub after_failure : Activate R F → ApplyContext → ApplyError → Bool → Action R F (Unit {0})
  after_failure activator ctx error true = do
    log R F ("activation failed, rolling back: " <> display_apply_error error)
    handle_rollback activator error ctx
  after_failure activator ctx error false = fail (failed error)

  -- What follows an activation.
  unfoldable pub after_activation :
      Activate R F
      → ApplyContext
      → SystemDiff PathBuf
      → Result ApplyError (Unit {0})
      → Action R F (Unit {0})
  after_activation activator ctx system (ok _) = complete_apply ctx system
  after_activation activator ctx system (err error) =
      after_failure activator ctx error (rollback_on_failure ctx.mode system)

  unfoldable pub apply_modification :
      Activate R F
      → ApplyContext
      → BTreeMap String AppDiff
      → SystemDiff PathBuf
      → Action R F (Unit {0})
  apply_modification activator ctx app_diffs system = do
    checkout_apps (some ctx.target_commit) app_diffs fresh
    desired ← desired_state ctx.target_commit
    activated ← try (activate R F activator ctx.mode desired system)
    after_activation activator ctx system activated
