-- ===== src/Tests/Deploys.antt =====
-- The theorems on the driver's side of a deploy, and on the status of a host, at concrete inputs.
use deptool.Base.{
  ◌≡◌, refl, ◌↔◌, map, ◌++◌, String, true, false, Option, none, some, List, [], ◌∷◌, ok, string_ord,
  if◌then◌else◌,
}
use deptool.BTreeMap.{BTreeMap, get, insert, keys}
use deptool.Types.{Oid, Hostname}
use deptool.Protocol.{Message}
use deptool.Store.Refs.{HostRef, host_tracking_refs, tracking_loop, tracking_ref, get_commit_tree}
use deptool.Store.Trees.{find_tree, tree_entries, host_trees}
use deptool.Plan.Changes.{HostPlan}
use deptool.Plan.Make.{Plan}
use deptool.Plan.Diff.{diff_apps}
use deptool.Deploy.Progress.{DeployProgress, waiting}
use deptool.Deploy.Messages.{read_apply_messages}
use deptool.Deploy.Messages.Outcome.{outcome_of, read_apply_messages-outcome}
use deptool.Deploy.Packs.{build_packs, packs_loop, add_pack, commit_ord}
use deptool.Deploy.Packs.Built.{build_packs-has}
use deptool.Store.Repository.{get_name}
use deptool.Plan.Filter.{everything, apply}
use deptool.Plan.Filter.Laws.{selects}
use deptool.Sync.{only_changed, select_loop, select_hosts_to_sync}
use deptool.Sync.Selection.{IsSelected, select_hosts_to_sync_lem}
use deptool.Status.{host_status, has_changes}
use deptool.Status.Changes.{is_up_to_date, host_status_up_to_date}
use deptool.Tests.MemoryRepository.{memory_repository, example, directory}

abbrev progress : DeployProgress
progress = record { states = ("db", waiting) ∷ ("web", waiting) ∷ []; log = [] }

test_has_host : deptool.BTreeMap.contains_key "web" progress.states ≡ true
unfolding get
test_has_host = refl

abbrev messages : List Message
messages = Message.waiting_for_units ("app.service" ∷ []) ∷ Message.waiting_for_units [] ∷ []

abbrev completed : Message
completed = Message.apply_complete "c1" ("app.service" ∷ []) [] []

read_apply_messages-outcome_example :
    (q : DeployProgress) × (read_apply_messages
        (λ text. text ∷ [])
        (λ text. text)
        "web"
        (map ok (messages ++ (completed ∷ [])))
        progress
      ≡ ok (outcome_of completed, q))
read_apply_messages-outcome_example =
    read_apply_messages-outcome (λ text. text ∷ []) (λ text. text) "web" messages completed progress
      refl refl test_has_host

abbrev web_plan : HostPlan
web_plan = record { apps = []; expected_current = some "c0"; is_rollback_safe = true }

abbrev new_plan : HostPlan
new_plan = record { apps = []; expected_current = none; is_rollback_safe = false }

abbrev plan : Plan
plan = record {
  hosts = ("db", web_plan) ∷ ("new", new_plan) ∷ ("web", web_plan) ∷ [];
  commit = "c1";
}

test_packs : build_packs memory_repository example plan ≡ ok ((none, "c1") ∷ (some "c0", "c1") ∷ [])
unfolding build_packs packs_loop add_pack get insert
test_packs = refl

test_planned : get "web" plan.hosts ≡ some web_plan
unfolding get
test_planned = refl

build_packs-has_example :
    (pack : String) × (get {K = Option Oid} (some "c0") ((none, "c1") ∷ (some "c0", "c1") ∷ [])
      ≡ some pack)
    × (memory_repository.create_pack example "c1" (some "c0") ≡ ok pack)
build_packs-has_example =
    build_packs-has memory_repository example plan ((none, "c1") ∷ (some "c0", "c1") ∷ []) "web"
      web_plan test_packs test_planned

abbrev web_ref : HostRef
web_ref = record { commit = "c0"; host_tree = "h0" }

test_status :
    host_status memory_repository example (some web_ref) "h1" ≡ ok (has_changes "c0" 1 ("app" ∷ []))
unfolding host_status find_tree get tree_entries deptool.Store.Trees.entries_loop insert diff_apps
    deptool.Plan.Diff.changed_loop deptool.Plan.Diff.changed_step deptool.Plan.Diff.removed_loop
    deptool.Plan.Diff.removed_step
test_status = refl

test_current_tree : find_tree memory_repository example "h0" ≡ ok []
unfolding find_tree get
test_current_tree = refl

test_target_tree : find_tree memory_repository example "h1" ≡ ok (directory "app" "a1" ∷ [])
unfolding find_tree get
test_target_tree = refl

host_status_up_to_date_example :
    (is_up_to_date (has_changes "c0" 1 ("app" ∷ [])) ≡ true)
    ↔ (tree_entries [] ≡ tree_entries (directory "app" "a1" ∷ []))
host_status_up_to_date_example =
    host_status_up_to_date memory_repository example web_ref "h1" [] (directory "app" "a1" ∷ [])
      (has_changes "c0" 1 ("app" ∷ [])) test_status test_current_tree test_target_tree

test_host_trees : host_trees memory_repository example "t1" ≡ ok (("web", "h1") ∷ [])
unfolding host_trees find_tree get tree_entries deptool.Store.Trees.entries_loop insert
test_host_trees = refl

test_selects :
    select_hosts_to_sync memory_repository example "t1" only_changed everything
    ≡ ok (("web", some "c0") ∷ [])
unfolding select_hosts_to_sync select_loop host_trees apply find_tree get tree_entries
    deptool.Store.Trees.entries_loop insert host_tracking_refs tracking_loop tracking_ref
    get_commit_tree get_name
test_selects = refl

select_hosts_to_sync_lem_example :
    (config : BTreeMap Hostname Oid) × (refs : BTreeMap Hostname HostRef) × (host_tracking_refs
        memory_repository example
        (keys config)
      ≡ ok refs)
    × ((host : Hostname)
        → IsSelected only_changed
            (if selects everything host then get host (("web", "h1") ∷ []) else none)
            (get host refs)
            (get host (("web", some "c0") ∷ [])))
select_hosts_to_sync_lem_example =
    select_hosts_to_sync_lem memory_repository example "t1" only_changed everything
      (("web", "h1") ∷ []) (("web", some "c0") ∷ []) test_host_trees test_selects
