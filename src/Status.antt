-- ===== src/Status.antt =====
-- src/status.rs: what the store knows of each host, without contacting it. The configuration tree that
-- `build_tree` makes of a directory is an argument.
pub mod Changes
use deptool.Base.{
  String, ℕ, Bool, true, false, Option, none, some, List, [], ◌∷◌, Result, ok, err, map_err, ◌>>=◌,
  is_empty, string_ord, if◌then◌else◌,
}
use deptool.BTreeMap.{BTreeMap, get, insert, keys}
use deptool.Types.{Oid, Hostname}
use deptool.Error.{Error, StoreError, store_err}
use deptool.Store.Repository.{Repository, Commit, git_err}
use deptool.Store.Refs.{HostRef, host_tracking_refs}
use deptool.Store.Trees.{find_tree, tree_entries, host_trees}
use deptool.Plan.Changes.{AppDiff}
use deptool.Plan.Diff.{diff_apps}
use deptool.Plan.Filter.{HostFilter, apply}

pub data HostStatus : Type 0 where
  new_host : HostStatus
  up_to_date : Oid → ℕ → HostStatus
  has_changes : Oid → ℕ → List String → HostStatus

-- The status of a host with a tracking reference, from the differences of its apps.
abbrev pub tracked_status : Oid → ℕ → BTreeMap String AppDiff → HostStatus
tracked_status commit time app_diffs =
    if is_empty app_diffs then up_to_date commit time else has_changes commit time (keys app_diffs)

module _ (R : Repository) where
  unfoldable pub host_status : R.State → Option HostRef → Oid → Result StoreError HostStatus
  host_status s none target_host_tree = ok new_host
  host_status s (some host_ref) target_host_tree = do
    current ← find_tree R s host_ref.host_tree
    target ← find_tree R s target_host_tree
    commit ← git_err (R.find_commit s host_ref.commit)
    ok (
        tracked_status host_ref.commit commit.time
          (diff_apps (tree_entries current) (tree_entries target)))

  unfoldable pub status_loop :
      R.State
      → BTreeMap Hostname HostRef
      → BTreeMap Hostname Oid
      → BTreeMap Hostname HostStatus
      → Result StoreError (BTreeMap Hostname HostStatus)
  status_loop s host_refs [] result = ok result
  status_loop s host_refs ((host, target_host_tree) ∷ hosts) result = do
    status ← host_status s (get host host_refs) target_host_tree
    status_loop s host_refs hosts (insert host status result)

  unfoldable pub compute_status :
      R.State → Oid → HostFilter → Result Error (BTreeMap Hostname HostStatus)
  compute_status s tree_oid filter = do
    all_hosts ← map_err store_err (host_trees R s tree_oid)
    config_hosts ← apply filter all_hosts
    host_refs ← map_err store_err (host_tracking_refs R s (keys config_hosts))
    map_err store_err (status_loop s host_refs config_hosts [])
