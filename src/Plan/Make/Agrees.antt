-- ===== src/Plan/Make/Agrees.antt =====
-- src/plan.rs and src/agent.rs: the plan that `make_plan` makes of a host, and the `diff_host` that
-- the agent runs when it is asked to apply that plan.
use mathlib.Core.Path.{subst}
use deptool.Base.{
  ◌≡◌, refl, sym, ◌∙◌, ap, String, true, Option, none, some, [], inl, inr, ok, ◌>>=◌, Result-cases,
  ok-injective, string_ord, transpose_or,
}
use deptool.BTreeMap.{BTreeMap, get}
use deptool.Types.{Oid, Hostname, PathBuf}
use deptool.Store.Repository.{Repository, Tree, TreeEntry, Commit, get_name}
use deptool.Store.Refs.{get_commit_tree}
use deptool.Store.Refs.Tracked.{host_tracking_refs-IsTracked}
use deptool.Store.Trees.{find_tree, tree_entries, get_host_apps}
use deptool.Store.Trees.Entries.{HasUniqueNames, get-tree_entries}
use deptool.Plan.Changes.{AppDiff, HostPlan, SystemDiff, is_rollback_safe}
use deptool.Plan.Diff.{get_apps, diff_apps, diff_host}
use deptool.Plan.Filter.{HostFilter}
use deptool.Plan.Make.{DraftPlan, plan_host, app_plans_loop, make_plan}
use deptool.Plan.Make.Origin.{Planned, make_plan-Planned}
use deptool.Plan.Safety.{diff_host_agrees}

module _ (R : Repository) (s : R.State) (tree_oid : Oid) (filter : HostFilter) where
  plan_host-current :
      (current : Option Oid) (apps : BTreeMap String Oid) (target : Oid) (plan : HostPlan)
      → plan_host R s current apps target ≡ ok plan
      → plan.expected_current ≡ current
  unfolding plan_host
  plan_host-current current apps target plan e = elim (Result-cases (find_tree R s target)) [
    | inr (_, failed) ↦ cc (rw failed at e)
    | inl (t, found) ↦
        elim (Result-cases (app_plans_loop R s (diff_apps apps (tree_entries t)) [] true)) [
          | inr (_, failed) ↦ cc (rw failed at (rw found at e))
          | inl (planned, runs) ↦ sym (
              ap (λ (p : HostPlan). p.expected_current) (ok-injective (rw runs at (rw found at e))))
        ]
  ]

  -- The apps of a host whose entry is known.
  get_apps-known :
      (host : Hostname) (commit : Oid) (t : Tree) (entry : TreeEntry)
      → get_commit_tree R s commit ≡ ok t
      → get_name t host ≡ some entry
      → get_apps R s host commit ≡ (find_tree R s entry.id >>= λ u. ok (tree_entries u))
  unfolding get_apps get_host_apps
  get_apps-known host commit t entry reads has = rw reads (rw (has, get_host_apps) refl)

  current_apps_read :
      (d : DraftPlan) (host : Hostname) (plan : HostPlan)
      (p : Planned R s tree_oid filter d host plan)
      → (apps : BTreeMap String Oid) × (plan_host R s plan.expected_current apps p.target ≡ ok plan)
        × (transpose_or (get_apps R s host) [] plan.expected_current ≡ ok apps)
  current_apps_read d host plan p = elim p.planned [
    | inl (new, made) ↦
        let (a, b) =
          subst
            (λ c.
              (plan_host R s c [] p.target ≡ ok plan)
              × (transpose_or (get_apps R s host) [] c ≡ ok []))
            (sym (plan_host-current none [] p.target plan made)) (made, refl) in
        ([], a, b)
    | inr (hr, t, known, found, made) ↦
        let tr = host_tracking_refs-IsTracked R s p.hosts p.refs p.tracked host hr known in
        let read : get_apps R s host hr.commit ≡ ok (tree_entries t) =
          get_apps-known host hr.commit tr.config_tree tr.entry tr.reads tr.has_entry
          ∙ rw (tr.is_entry, found) refl in
        let (a, b) =
          subst
            (λ c.
              (plan_host R s c (tree_entries t) p.target ≡ ok plan)
              × (transpose_or (get_apps R s host) [] c ≡ ok (tree_entries t)))
            (sym (plan_host-current (some hr.commit) (tree_entries t) p.target plan made))
            (made, read) in
        (tree_entries t, a, b)
  ]

  committed_tree :
      (commit : Oid) (c : Commit) (t : Tree)
      → R.find_commit s commit ≡ ok c
      → c.tree_id ≡ tree_oid
      → find_tree R s tree_oid ≡ ok t
      → get_commit_tree R s commit ≡ ok t
  unfolding get_commit_tree find_tree
  committed_tree commit c t found same reads = rw (found, same) reads

  -- Let `make_plan` give a plan for a host, in a store that has the planned tree as the tree of
  -- the commit to deploy, where the names in that tree are unique. Then the agent's `diff_host` in
  -- the same store, from the commit that the plan expects to the commit to deploy, succeeds, and
  -- judges rollback safety as the plan says.
  pub make_plan-agrees :
      (d : DraftPlan) (host : Hostname) (plan : HostPlan) (apps_dir : PathBuf) (commit : Oid)
      (c : Commit)
      → make_plan R s tree_oid filter ≡ ok (some d)
      → get host d.hosts ≡ some plan
      → R.find_commit s commit ≡ ok c
      → c.tree_id ≡ tree_oid
      → ((t : Tree) → find_tree R s tree_oid ≡ ok t → HasUniqueNames t)
      → (diffs : BTreeMap String AppDiff) × (system : SystemDiff PathBuf) × (diff_host R s host
            apps_dir plan.expected_current
            (some commit)
          ≡ ok (diffs, system))
        × (is_rollback_safe system ≡ plan.is_rollback_safe)
  make_plan-agrees d host plan apps_dir commit c made g found same unique =
      let p = make_plan-Planned R s tree_oid filter d host plan made g in
      let (apps, planned, read) = current_apps_read d host plan p in
      let (e, has, is) =
        get-tree_entries p.config_tree host p.target (unique p.config_tree p.reads) p.listed in
      let reads = committed_tree commit c p.config_tree found same p.reads in
      diff_host_agrees R s apps_dir host plan.expected_current apps commit p.target plan planned
        read (sym (get_apps-known host commit p.config_tree e reads has ∙ rw is refl))
