-- ===== src/Plan/Make.antt =====
-- src/plan.rs: `make_plan`, which compares a configuration tree with what the tracking references
-- say of each host, and the commit that a draft becomes.
pub mod Trace
pub mod Origin
pub mod Agrees
use deptool.Base.{
  ◌≡◌, refl, String, ◌<>◌, Bool, true, false, Option, none, some, List, [], ◌∷◌, ◌++◌, ◌&&◌, Result,
  ok, err, Fault, failed, attempt, map_err, map_failed, ◌>>=◌, ◌>>◌, ◌==◌, string_ord,
  if◌then◌else◌, is_empty,
}
use deptool.BTreeMap.{BTreeMap, get, insert, keys, map_values}
use deptool.Types.{Oid, Hostname}
use deptool.Error.{StoreError, Error, store_err}
use deptool.Store.Repository.{Repository, git_err}
use deptool.Store.Refs.{HostRef, host_tracking_refs}
use deptool.Store.Trees.{find_tree, host_trees, tree_entries}
use deptool.Store.Validate.{validate}
use deptool.Store.Frontier.{frontier}
use deptool.Plan.Changes.{AppDiff, AppPlan, HostPlan, SystemDiff, is_rollback_safe}
use deptool.Plan.Diff.{diff_apps, compute_app_plan}
use deptool.Plan.Filter.{HostFilter, apply}

pub record DraftPlan : Type 0 where
  pub hosts : BTreeMap Hostname HostPlan
  pub tree_oid : Oid
  pub parents : List Oid

pub record Plan : Type 0 where
  pub hosts : BTreeMap Hostname HostPlan
  pub commit : Oid

unfoldable pub expected_commits : Plan → BTreeMap Hostname (Option Oid)
expected_commits p = map_values (λ h. h.expected_current) p.hosts

-- What the loop over the hosts has gathered.
pub record Progress : Type 0 where
  pub parent_commits : List Oid
  pub hosts : BTreeMap Hostname HostPlan

module _ (R : Repository) where
  open R use {State}

  -- The plans of a host's apps, and whether all of them can be rolled back.
  unfoldable pub app_plans_loop :
      State
      → BTreeMap String AppDiff
      → BTreeMap String AppPlan
      → Bool
      → Result StoreError (BTreeMap String AppPlan × Bool)
  app_plans_loop s [] apps safe = ok (apps, safe)
  app_plans_loop s ((name, diff) ∷ diffs) apps safe = do
    plan ← compute_app_plan R s diff
    app_plans_loop s diffs (insert name plan apps) (safe && is_rollback_safe plan.system)

  -- One host that has changes.
  unfoldable pub plan_host :
      State → Option Oid → BTreeMap String Oid → Oid → Result StoreError HostPlan
  plan_host s expected_current current_apps target_tree_oid = do
    t ← find_tree R s target_tree_oid
    (apps, safe) ← app_plans_loop s (diff_apps current_apps (tree_entries t)) [] true
    ok (record { apps = apps; expected_current = expected_current; is_rollback_safe = safe })

  -- The body of the loop over the hosts. A host whose tree is deployed already is skipped.
  unfoldable pub host_step :
      State → BTreeMap Hostname HostRef → Hostname → Oid → Progress → Result StoreError Progress
  host_step s host_refs host target_tree_oid p = elim (get host host_refs) [
    | none ↦ do
      plan ← plan_host s none [] target_tree_oid
      ok (record p { hosts = insert host plan p.hosts })
    | some hr ↦ elim (hr.host_tree == target_tree_oid) [
      | true ↦ ok p
      | false ↦ do
        t ← find_tree R s hr.host_tree
        plan ← plan_host s (some hr.commit) (tree_entries t) target_tree_oid
        ok (record {
          parent_commits = p.parent_commits ++ (hr.commit ∷ []);
          hosts = insert host plan p.hosts;
        })
    ]
  ]

  unfoldable pub hosts_loop :
      State
      → BTreeMap Hostname HostRef
      → BTreeMap Hostname Oid
      → Progress
      → Result StoreError Progress
  hosts_loop s host_refs [] p = ok p
  hosts_loop s host_refs ((host, target_tree_oid) ∷ hosts) p = do
    p' ← host_step s host_refs host target_tree_oid p
    hosts_loop s host_refs hosts p'

  -- The end of `make_plan`: no plan if no host has changes.
  unfoldable pub draft : State → Oid → Progress → Result StoreError (Option DraftPlan)
  draft s tree_oid p = if is_empty p.hosts then ok none else do
    parents ← frontier R s p.parent_commits
    ok (some (record { hosts = p.hosts; tree_oid = tree_oid; parents = parents }))

  unfoldable pub make_plan : State → Oid → HostFilter → Result (Fault Error) (Option DraftPlan)
  make_plan s tree_oid filter = do
    map_failed store_err (validate R s tree_oid)
    all_hosts ← attempt (map_err store_err (host_trees R s tree_oid))
    config_hosts ← attempt (apply filter all_hosts)
    host_refs ← attempt (map_err store_err (host_tracking_refs R s (keys config_hosts)))
    p ← attempt (
        map_err store_err
          (hosts_loop s host_refs config_hosts (record { parent_commits = []; hosts = [] })))
    attempt (map_err store_err (draft s tree_oid p))
