-- ===== src/Tests/Planning.antt =====
-- The theorems on plans and on what the store reads, at the example repository.
use mathlib.Core.Path.{subst}
use deptool.Base.{
  ◌≡◌, refl, String, true, false, Option, none, some, [], ◌∷◌, Result, ok, err, sort, ok-injective,
  string_ord,
}
use deptool.BTreeMap.{BTreeMap, get, insert, retain}
use deptool.BTreeMap.Set.{collect, difference}
use deptool.Types.{Oid, PathBuf}
use deptool.Store.Repository.{Tree, get_name}
use deptool.Store.Refs.{tracking_ref, tracking_loop, host_tracking_refs, get_commit_tree}
use deptool.Store.Trees.{
  find_tree, tree_entries, entries_loop, get_host_apps, host_trees, read_manifest, subdir_entries,
  subtree_oid, enabled_units,
}
use deptool.Store.Trees.Entries.{HasUniqueNames}
use deptool.Store.Validate.{
  claim, claim_all, check_symlink, check_symlinks, managed_dir_of, validate, validate_hosts,
  validate_app_manifests, validate_apps, validate_app,
}
use deptool.Store.Validate.Owned.{Managed}
use deptool.Store.Validate.Owned.Distinct.{Provides, validate_distinct}
use deptool.Store.Frontier.{frontier, frontier_loop, is_dominated}
use deptool.Plan.Filter.{everything, apply}
use deptool.Plan.Changes.{HostPlan, AppDiff, SystemDiff, is_rollback_safe, old_tree, new_tree}
use deptool.Plan.Diff.{
  diff_host, diff_apps, diff_enabled, diff_symlinks, changed_loop, changed_step, removed_loop,
  removed_step, compute_app_plan, compute_system_diff, disabled_loop, enabled_loop, links_loop,
  unlinks_loop, subdir_changes,
}
use deptool.Plan.Make.{
  DraftPlan, make_plan, app_plans_loop, draft, host_step, hosts_loop, plan_host,
}
use deptool.Plan.Make.Agrees.{make_plan-agrees}
use deptool.Tests.MemoryRepository.{memory_repository, example, directory}

abbrev no_draft : DraftPlan
no_draft = record { hosts = []; tree_oid = ""; parents = [] }

abbrev drafted_of {ℓ} : {E : Type ℓ} → Result E (Option DraftPlan) → DraftPlan
drafted_of (ok (some d)) = d
drafted_of (ok none) = no_draft
drafted_of (err _) = no_draft

abbrev planned_of : Option HostPlan → HostPlan
planned_of none = record { apps = []; expected_current = none; is_rollback_safe = true }
planned_of (some p) = p

-- The draft for the tree of commit `c1`, and its plan for the host.
abbrev drafted : DraftPlan
drafted = drafted_of (make_plan memory_repository example "t1" everything)

abbrev planned : HostPlan
planned = planned_of (get "web" drafted.hosts)

test_drafts : make_plan memory_repository example "t1" everything ≡ ok (some drafted)
unfolding make_plan get find_tree get_name insert validate validate_hosts validate_app_manifests
    get_host_apps validate_apps tree_entries validate_app read_manifest subdir_entries claim_all
    claim check_symlinks host_trees apply collect difference retain sort is_rollback_safe new_tree
    old_tree changed_loop changed_step compute_app_plan compute_system_diff diff_apps diff_enabled
    diff_symlinks disabled_loop enabled_loop links_loop removed_loop removed_step subdir_changes
    unlinks_loop app_plans_loop draft host_step hosts_loop plan_host frontier frontier_loop
    is_dominated get_commit_tree host_tracking_refs tracking_loop tracking_ref enabled_units
    entries_loop subtree_oid check_symlink managed_dir_of
test_drafts = refl

test_plans : get "web" drafted.hosts ≡ some planned
unfolding make_plan get find_tree get_name insert validate validate_hosts validate_app_manifests
    get_host_apps validate_apps tree_entries validate_app read_manifest subdir_entries claim_all
    claim check_symlinks host_trees apply collect difference retain sort is_rollback_safe new_tree
    old_tree changed_loop changed_step compute_app_plan compute_system_diff diff_apps diff_enabled
    diff_symlinks disabled_loop enabled_loop links_loop removed_loop removed_step subdir_changes
    unlinks_loop app_plans_loop draft host_step hosts_loop plan_host frontier frontier_loop
    is_dominated get_commit_tree host_tracking_refs tracking_loop tracking_ref enabled_units
    entries_loop subtree_oid check_symlink managed_dir_of
test_plans = refl

-- The agent may be at `c0`, where it runs nothing, and the new unit makes a rollback unsafe.
test_expects : (planned.expected_current ≡ some "c0") × (planned.is_rollback_safe ≡ false)
unfolding make_plan get find_tree get_name insert validate validate_hosts validate_app_manifests
    get_host_apps validate_apps tree_entries validate_app read_manifest subdir_entries claim_all
    claim check_symlinks host_trees apply collect difference retain sort is_rollback_safe new_tree
    old_tree changed_loop changed_step compute_app_plan compute_system_diff diff_apps diff_enabled
    diff_symlinks disabled_loop enabled_loop links_loop removed_loop removed_step subdir_changes
    unlinks_loop app_plans_loop draft host_step hosts_loop plan_host frontier frontier_loop
    is_dominated get_commit_tree host_tracking_refs tracking_loop tracking_ref enabled_units
    entries_loop subtree_oid check_symlink managed_dir_of
test_expects = (refl, refl)

test_unique : (t : Tree) → find_tree memory_repository example "t1" ≡ ok t → HasUniqueNames t
unfolding find_tree get get_name
test_unique t e = subst HasUniqueNames (ok-injective e) (refl, tt)

test_commit :
    memory_repository.find_commit example "c1" ≡ ok (record { id = "c1"; tree_id = "t1"; time = 2 })
unfolding get
test_commit = refl

make_plan-agrees_example :
    (diffs : BTreeMap String AppDiff) × (system : SystemDiff PathBuf) × (diff_host memory_repository
        example "web" "/apps" planned.expected_current
        (some "c1")
      ≡ ok (diffs, system))
    × (is_rollback_safe system ≡ planned.is_rollback_safe)
make_plan-agrees_example =
    make_plan-agrees memory_repository example "t1" everything drafted "web" planned "/apps" "c1"
      (record { id = "c1"; tree_id = "t1"; time = 2 }) test_drafts test_plans test_commit refl
      test_unique

test_validates : validate memory_repository example "t1" ≡ ok tt
unfolding validate find_tree get get_name insert validate_hosts validate_app_manifests get_host_apps
    validate_apps tree_entries validate_app read_manifest subdir_entries claim_all claim
    check_symlinks entries_loop check_symlink managed_dir_of
test_validates = refl

test_config_tree : find_tree memory_repository example "t1" ≡ ok (directory "web" "h1" ∷ [])
unfolding find_tree get
test_config_tree = refl

test_web_entry : get_name (directory "web" "h1" ∷ []) "web" ≡ some (directory "web" "h1")
unfolding get_name
test_web_entry = refl

test_web_apps :
    get_host_apps memory_repository example (directory "web" "h1" ∷ []) "web"
    ≡ ok (("app", "a1") ∷ [])
unfolding get_host_apps find_tree get get_name tree_entries entries_loop insert
test_web_apps = refl

test_app : get {K = String} {V = Oid} "app" (("app", "a1") ∷ []) ≡ some "a1"
unfolding get
test_app = refl

test-Provides : Provides memory_repository example Managed.units "app.service" "a1"
unfolding subdir_entries find_tree get get_name insert
test-Provides = (("app.service", tt) ∷ [], refl, refl)

validate_distinct_example : ◌≡◌ {A = String} "app" "app"
validate_distinct_example =
    validate_distinct memory_repository example "t1" (directory "web" "h1" ∷ []) "web"
      (directory "web" "h1") (("app", "a1") ∷ []) Managed.units "app.service" "app" "app" "a1" "a1"
      test_validates test_config_tree test_web_entry test_web_apps test_app test_app test-Provides
      test-Provides
