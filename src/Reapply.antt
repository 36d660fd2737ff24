-- ===== src/Reapply.antt =====
-- src/reapply.rs: applying each host's deployed commit once more. The configuration tree that
-- `build_tree` makes of a directory is an argument.
pub mod Forward
use deptool.Base.{
  String, ◌<>◌, ℕ, zero, suc, ◌+◌, Bool, true, false, not, Option, none, some, List, [], ◌∷◌,
  Result, ok, err, Fault, panicked, attempt, map_err, length, ltb, nat_eq, filter, is_empty,
  string_ord, ◌==◌, if◌then◌else◌, ◌>>=◌ as and_then,
}
use deptool.BTreeMap.{BTreeMap, get, insert, keys, values, map_values, contains_key}
use deptool.BTreeMap.Set.{BTreeSet, add}
use deptool.Types.{Oid, Hostname}
use deptool.Error.{
  Error, HostError, StoreError, display_host_error, incomplete_deploy, deploy_failed, store_err,
  unsynced_hosts,
}
use deptool.Protocol.{apply, reapply}
use deptool.Store.Repository.{Repository, git_err}
use deptool.Store.Refs.{HostRef, host_tracking_refs}
use deptool.Store.Trees.{tree_entries, host_trees, enabled_units}
use deptool.Io.{Io, pure, fail, reads, lift_reads, try, expect, ◌>>=◌, ◌>>◌}
use deptool.Plan.Filter.{HostFilter, apply as apply_filter}
use deptool.Agent.Lock.{same_commit}
use deptool.Deploy.Progress.{DeployProgress, applying, done, failed, num_failed, show_nat, outcome}
use deptool.Deploy.Connection.{Transport, Driver, DriverIo, update, require}
use deptool.Deploy.Messages.{ApplyOutcome, applied, was_rolled_back}
use deptool.Deploy.Lock.{StaleHost, connect_and_lock}
use deptool.Deploy.Run.{read_outcome}
use deptool.Sync.{fetch_stale_objects}

pub record HostReapply : Type 0 where
  pub commit : Oid
  pub n_apps : ℕ
  pub units_enabled : BTreeSet String

-- `units_enabled.extend(..)`
unfoldable pub extend : BTreeSet String → BTreeSet String → BTreeSet String
extend [] units = units
extend ((unit, _) ∷ more) units = extend more (add unit units)

abbrev pub from_store : {A : Type 0} → Result StoreError A → Result (Fault Error) A
from_store r = attempt (map_err store_err r)

module _ (R : Repository) where
  unfoldable pub units_loop :
      R.State → BTreeMap String Oid → BTreeSet String → Result StoreError (BTreeSet String)
  units_loop s [] units = ok units
  units_loop s ((_, app_tree) ∷ apps) units =
      and_then (enabled_units R s app_tree) λ enabled. units_loop s apps (extend enabled units)

  unfoldable pub host_reapply : R.State → HostRef → Result StoreError HostReapply
  host_reapply s host_ref = and_then (git_err (R.find_tree s host_ref.host_tree)) λ tree.
      and_then (units_loop s (tree_entries tree) []) λ units_enabled. ok (record {
        commit = host_ref.commit;
        n_apps = length (tree_entries tree);
        units_enabled = units_enabled;
      })

  -- `host_refs[&host]`, which panics on a missing key.
  abbrev pub indexed : {A : Type 0} → Option A → Result (Fault Error) A
  indexed (some x) = ok x
  indexed none = err (panicked "no entry found for key")

  unfoldable pub reapply_loop :
      R.State
      → BTreeMap Hostname HostRef
      → List Hostname
      → BTreeMap Hostname HostReapply
      → Result (Fault Error) (BTreeMap Hostname HostReapply)
  reapply_loop s host_refs [] hosts = ok hosts
  reapply_loop s host_refs (host ∷ names) hosts =
      and_then (indexed (get host host_refs)) λ host_ref.
        and_then (from_store (host_reapply s host_ref))
          λ one. reapply_loop s host_refs names (insert host one hosts)

  abbrev pub unsynced : BTreeMap Hostname HostRef → List Hostname → List Hostname
  unsynced host_refs names = filter (λ host. not (contains_key host host_refs)) names

  -- What follows once the tracking references are read.
  unfoldable pub reapply_synced :
      R.State
      → BTreeMap Hostname HostRef
      → List Hostname
      → Result (Fault Error) (BTreeMap Hostname HostReapply)
  reapply_synced s host_refs names =
      if is_empty (unsynced host_refs names)
      then reapply_loop s host_refs names []
      else err (Fault.failed (unsynced_hosts (unsynced host_refs names)))

  unfoldable pub select_hosts_to_reapply :
      R.State → Oid → HostFilter → Result (Fault Error) (BTreeMap Hostname HostReapply)
  select_hosts_to_reapply s tree_oid filter =
      and_then (from_store (host_trees R s tree_oid)) λ all_hosts.
        and_then (attempt (apply_filter filter all_hosts)) λ config_hosts.
          and_then (from_store (host_tracking_refs R s (keys config_hosts)))
            λ host_refs. reapply_synced s host_refs (keys config_hosts)

module _ (R : Repository) (T : Transport) (lines : String → List String)
    (trim_end : String → String) where
  abbrev unwrapped : {A : Type 0} → Result HostError A → DriverIo R T A
  unwrapped (ok a) = pure a
  unwrapped (err e) = fail (Fault.failed e)

  -- `unreachable!` if the agent rolled back.
  abbrev pub applied_commit : ApplyOutcome → DriverIo R T Oid
  applied_commit (applied oid) = pure oid
  applied_commit was_rolled_back = fail (panicked "agent never rolls back a reapply")

  unfoldable pub reapply_host : Hostname → T.Conn → Oid → DriverIo R T (Unit {0})
  reapply_host host conn target_commit = do
    update R T host applying
    let (asked, conn') = T.send_request (apply target_commit reapply) conn
    unwrapped asked
    outcome ← read_outcome R T lines trim_end host (T.close conn')
    commit ← applied_commit outcome
    require R T (commit == target_commit) "applied commit matches the reapply target"
    update R T host done

  abbrev report : Hostname → Result HostError (Unit {0}) → DriverIo R T (Unit {0})
  report host (ok _) = pure tt
  report host (err e) = update R T host (failed e)

  unfoldable pub reapply_all :
      BTreeMap Hostname T.Conn → BTreeMap Hostname HostReapply → DriverIo R T (Unit {0})
  reapply_all [] hosts = pure tt
  reapply_all ((host, conn) ∷ connections) hosts = do
    entry ← expect (get host hosts) "no entry found for key"
    result ← try (reapply_host host conn entry.commit)
    report host result
    reapply_all connections hosts

  -- A host whose target differs from its current commit has an incomplete deploy.
  abbrev pub is_incomplete : T.Conn → Bool
  is_incomplete conn = not (same_commit (T.hello conn).target_commit (T.hello conn).current_commit)

  unfoldable pub count_incomplete : BTreeMap Hostname T.Conn → ℕ → DriverIo R T ℕ
  count_incomplete [] n_incomplete = pure n_incomplete
  count_incomplete ((host, conn) ∷ connections) n_incomplete = elim (is_incomplete conn) [
    | true ↦
        update R T host (failed incomplete_deploy)
        >> count_incomplete connections (n_incomplete + 1)
    | false ↦ count_incomplete connections n_incomplete
  ]

  -- A callee that reports every error of a host in the progress, and so returns none.
  abbrev reported :
      {A : Type 0} → Result (Fault HostError) A × Driver R T → Result (Fault Error) A × Driver R T
  reported (ok a, d) = (ok a, d)
  reported (err (Fault.failed e), d) = (err (panicked (display_host_error e)), d)
  reported (err (panicked m), d) = (err (panicked m), d)

  abbrev in_progress : {A : Type 0} → DriverIo R T A → Io (Driver R T) (Fault Error) A
  in_progress m d = reported (m d)

  unfoldable pub abort_reapply :
      BTreeMap Hostname (StaleHost R T) → Io (Driver R T) (Fault Error) (Unit {0})
  abort_reapply stale_hosts = do
    in_progress (fetch_stale_objects R T stale_hosts)
    n ← reads (λ d. num_failed d.progress)
    fail (Fault.failed (deploy_failed ("failed to lock " <> (show_nat n <> " host(s), aborting"))))

  -- Every host is locked.
  unfoldable pub reapply_locked :
      BTreeMap Hostname HostReapply
      → BTreeMap Hostname T.Conn
      → Io (Driver R T) (Fault Error) (Unit {0})
  reapply_locked hosts connections = do
    n_incomplete ← in_progress (count_incomplete connections 0)
    elim (ltb 0 n_incomplete) [
      | true ↦ fail (
          Fault.failed (
            deploy_failed (
              "refusing to reapply, "
              <> (show_nat n_incomplete <> " host(s) have an incomplete deploy"))))
      | false ↦
          in_progress (reapply_all connections hosts)
          >> lift_reads (λ d. attempt (outcome d.progress))
    ]

  unfoldable pub run_reapply :
      BTreeMap Hostname HostReapply → String → Io (Driver R T) (Fault Error) (Unit {0})
  run_reapply hosts operator = do
    result ←
        in_progress
          (connect_and_lock R T (map_values (λ (h : HostReapply). some h.commit) hosts) operator)
    elim (ltb (length result.locked) (length hosts)) [
      | true ↦ abort_reapply result.stale
      | false ↦ reapply_locked hosts result.locked
    ]
