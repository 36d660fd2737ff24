-- ===== src/Plan/Subject.antt =====
-- src/plan.rs: the message of the deploy commit, and `DraftPlan::finalize`. The panic of `expect` is
-- a fault. src/store.rs: `commit_tree`, but for the author, whom the commit does not depend on.
pub mod Budget
use Prim.Native.String.{len}
use deptool.Base.{
  String, ◌<>◌, ℕ, Bool, true, false, ◌&&◌, Option, none, some, List, [], ◌∷◌, ◌++◌, Result, ok,
  err, Fault, panicked, attempt, length, is_empty, nat_eq, leb, if◌then◌else◌, string_ord,
  ◌>>=◌ as and_then,
}
use deptool.BTreeMap.{BTreeMap, keys}
use deptool.BTreeMap.Set.{collect}
use deptool.Types.{Oid, Hostname, join_texts}
use deptool.Error.{StoreError}
use deptool.Store.Repository.{Repository, git_err}
use deptool.Deploy.Progress.{show_nat}
use deptool.Plan.Changes.{AppDiff, AppPlan, HostPlan, add, remove, update}
use deptool.Plan.Make.{DraftPlan, Plan}

abbrev pub subject_budget : ℕ
subject_budget = 52

-- All but the last of the names, and the last one.
abbrev pub split_last : String → List String → List String × String
split_last name [] = ([], name)
split_last name (other ∷ names) = let (front, last) = split_last other names in (name ∷ front, last)

unfoldable pub oxford_join : List String → String
oxford_join [] = ""
oxford_join (a ∷ []) = a
oxford_join (a ∷ b ∷ []) = a <> (" and " <> b)
oxford_join (a ∷ b ∷ c ∷ names) =
    let (front, last) = split_last a (b ∷ c ∷ names) in join_texts ", " front <> (", and " <> last)

-- The apps that change on any host, each host in turn.
unfoldable pub changed_apps : BTreeMap Hostname HostPlan → List String
changed_apps [] = []
changed_apps ((_, plan) ∷ hosts) = keys plan.apps ++ changed_apps hosts

abbrev is_update : AppDiff → Bool
is_update (update _ _) = true
is_update _ = false

unfoldable pub all_apps_updated : BTreeMap String AppPlan → Bool
all_apps_updated [] = true
all_apps_updated ((_, plan) ∷ apps) = is_update plan.diff && all_apps_updated apps

unfoldable pub all_updates : BTreeMap Hostname HostPlan → Bool
all_updates [] = true
all_updates ((_, plan) ∷ hosts) = all_apps_updated plan.apps && all_updates hosts

abbrev pub verb_of : Bool → String
verb_of updates = if updates then "Update" else "Deploy"

-- `{n} app` or `{n} apps`
unfoldable pub counted : ℕ → String → String → String
counted n one many = show_nat n <> (" " <> (if nat_eq n 1 then one else many))

-- From the most to the least descriptive.
unfoldable pub candidates : String → List String → List String → List String
candidates verb apps hosts =
    let full_hosts = oxford_join hosts in
    let count_hosts = counted (length hosts) "host" "hosts" in
    let count_apps = counted (length apps) "app" "apps" in
    if is_empty apps
    then ("Deploy " <> full_hosts) ∷ ("Deploy " <> count_hosts) ∷ []
    else (verb <> (" " <> (oxford_join apps <> (" on " <> full_hosts))))
      ∷ (verb <> (" " <> (oxford_join apps <> (" on " <> count_hosts))))
      ∷ (verb <> (" " <> (count_apps <> (" on " <> count_hosts))))
      ∷ []

-- `candidates.into_iter().find(|s| s.len() <= SUBJECT_BUDGET)`
unfoldable pub find_fitting : List String → Option String
find_fitting [] = none
find_fitting (s ∷ ss) = if leb (len s) subject_budget then some s else find_fitting ss

abbrev pub expect_subject : Option String → Result (Fault StoreError) String
expect_subject (some s) = ok s
expect_subject none = err (panicked "count-only candidate always fits the budget")

unfoldable pub subject : DraftPlan → Result (Fault StoreError) String
subject draft = expect_subject (
    find_fitting (
      candidates (verb_of (all_updates draft.hosts)) (keys (collect (changed_apps draft.hosts)))
        (keys draft.hosts)))

abbrev action : AppDiff → String
action (add _) = "add"
action (update _ _) = "update"
action (remove _) = "remove"

unfoldable pub app_lines : BTreeMap String AppPlan → String
app_lines [] = ""
app_lines ((app, plan) ∷ apps) =
    "    " <> (action plan.diff <> (" " <> (app <> ("\n" <> app_lines apps))))

abbrev changed_from : Option Oid → String
changed_from (some oid) = " (changed from " <> (oid <> ")\n")
changed_from none = " (new host)\n"

unfoldable pub host_lines : BTreeMap Hostname HostPlan → String
host_lines [] = ""
host_lines ((host, plan) ∷ hosts) =
    "\n"
    <> (host <> (changed_from plan.expected_current <> (app_lines plan.apps <> host_lines hosts)))

unfoldable pub commit_message : DraftPlan → Result (Fault StoreError) String
commit_message draft =
    and_then (subject draft) λ first. ok (first <> ("\n" <> host_lines draft.hosts))

module _ (R : Repository) where
  unfoldable pub find_parents : R.State → List Oid → Result StoreError (Unit {0})
  find_parents s [] = ok tt
  find_parents s (oid ∷ oids) = and_then (git_err (R.find_commit s oid)) λ _. find_parents s oids

  unfoldable pub commit_tree : R.State → Oid → List Oid → String → Result StoreError (R.State × Oid)
  commit_tree s tree_oid parent_oids message = and_then (git_err (R.find_tree s tree_oid)) λ _.
      and_then (find_parents s parent_oids) λ _. git_err (R.commit s tree_oid parent_oids message)

  unfoldable pub finalize : R.State → DraftPlan → Result (Fault StoreError) (R.State × Plan)
  finalize s draft = and_then (commit_message draft) λ message.
      and_then (attempt (commit_tree s draft.tree_oid draft.parents message))
        λ (s', commit). ok (s', record { hosts = draft.hosts; commit = commit })
