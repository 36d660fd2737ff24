-- ===== src/Plan/Safety.antt =====
-- src/plan.rs: rollback safety is judged twice, by the driver for each app and by the agent for
-- the whole host; the judgements agree.
use deptool.Base.{
  ◌≡◌, refl, sym, ◌∙◌, String, Bool, true, ◌&&◌, Option, some, List, [], ◌∷◌, map, arith, ok, ◌>>=◌,
  Result-cases, inl, inr, is_empty, is_empty-append, transpose_or, string_ord,
}
use deptool.BTreeMap.{BTreeMap, insert}
use deptool.Types.{Oid, Hostname, PathBuf}
use deptool.Store.Repository.{Repository}
use deptool.Store.Trees.{find_tree, tree_entries}
use deptool.Plan.Changes.{
  AppDiff, AppPlan, HostPlan, SystemDiff, is_rollback_safe, append, resolve_symlinks, default,
}
use deptool.Plan.Diff.{
  diff_apps, compute_system_diff, compute_app_plan, system_loop, get_apps, diff_host,
}
use deptool.Plan.Make.{app_plans_loop, plan_host}

is_empty-map : {A B : Type 0} (f : A → B) (xs : List A) → is_empty (map f xs) ≡ is_empty xs
is_empty-map f [] = refl
is_empty-map f (x ∷ xs) = refl

-- A merged diff can be rolled back exactly when both of its parts can.
pub is_rollback_safe-append :
    {T : Type 0} (a b : SystemDiff T)
    → is_rollback_safe (append a b).0 ≡ (is_rollback_safe a && is_rollback_safe b)
unfolding is_rollback_safe append
is_rollback_safe-append a b =
    rw
      (
        is_empty-append a.networkd.link b.networkd.link,
        is_empty-append a.quadlets.link b.quadlets.link,
        is_empty-append a.symlinks.create b.symlinks.create,
        is_empty-append a.sysusers.link b.sysusers.link,
        is_empty-append a.units.link b.units.link,
        is_empty-append a.unit_actions.enable b.unit_actions.enable,
      )
      (ground arith)

is_rollback_safe-resolve_symlinks :
    (d : SystemDiff String) (app : String) (apps_dir : PathBuf)
    → is_rollback_safe (resolve_symlinks d app apps_dir) ≡ is_rollback_safe d
unfolding is_rollback_safe resolve_symlinks
is_rollback_safe-resolve_symlinks d app apps_dir = rw (is_empty-map _ d.symlinks.create)

default_safe : is_rollback_safe {T = PathBuf} default ≡ true
unfolding is_rollback_safe
default_safe = refl

abbrev host_plan : BTreeMap String AppPlan → Option Oid → Bool → HostPlan
host_plan apps current safe = record {
  apps = apps;
  expected_current = current;
  is_rollback_safe = safe;
}

module _ (R : Repository) (s : R.State) (apps_dir : PathBuf) where
  merged_safe :
      (system : SystemDiff PathBuf) (d : SystemDiff String) (app : String)
      → is_rollback_safe (append system (resolve_symlinks d app apps_dir)).0
        ≡ (is_rollback_safe system && is_rollback_safe d)
  merged_safe system d app =
      is_rollback_safe-append system (resolve_symlinks d app apps_dir)
      ∙ rw is_rollback_safe-resolve_symlinks

  -- Where the driver has planned every app, the agent's loop over the same diffs succeeds, and
  -- its verdict on the whole is the driver's conjunction.
  system_loop_agrees :
      (diffs : BTreeMap String AppDiff) (system : SystemDiff PathBuf)
      (apps apps' : BTreeMap String AppPlan) (safe : Bool)
      → app_plans_loop R s diffs apps (is_rollback_safe system) ≡ ok (apps', safe)
      → (system' : SystemDiff PathBuf) × (system_loop R s apps_dir diffs system ≡ ok system')
        × (is_rollback_safe system' ≡ safe)
  unfolding app_plans_loop system_loop compute_app_plan
  system_loop_agrees [] system apps apps' safe h = (system, refl, ground arith)
  system_loop_agrees ((app, d) ∷ diffs) system apps apps' safe h =
      elim (Result-cases (compute_system_diff R s d)) [
        | inr (e, failed) ↦ cc (rw failed at h)
        | inl (sd, computed) ↦
            let plan : AppPlan = record { diff = d; system = sd } in
            rw computed (
              system_loop_agrees diffs (append system (resolve_symlinks sd app apps_dir)).0
                (insert app plan apps) apps' safe
                (rw (merged_safe system sd app) (rw computed at h)))
      ]

  planned_agrees :
      (host : Hostname) (current : Option Oid) (current_apps : BTreeMap String Oid) (target : Oid)
      (plan : HostPlan) (target_apps : BTreeMap String Oid)
      → (app_plans_loop R s (diff_apps current_apps target_apps) [] true >>= λ (apps, safe).
          ok (host_plan apps current safe))
        ≡ ok plan
      → transpose_or (get_apps R s host) [] current ≡ ok current_apps
      → get_apps R s host target ≡ ok target_apps
      → (diffs : BTreeMap String AppDiff) × (system : SystemDiff PathBuf) × (diff_host R s host
            apps_dir current
            (some target)
          ≡ ok (diffs, system))
        × (is_rollback_safe system ≡ plan.is_rollback_safe)
  unfolding diff_host
  planned_agrees host current current_apps target plan target_apps h c t =
      let diffs = diff_apps current_apps target_apps in
      elim (Result-cases (app_plans_loop R s diffs [] true)) [
        | inr (e, failed) ↦ cc (rw failed at h)
        | inl ((apps, safe), planned) ↦
            let (system, runs, same) =
              system_loop_agrees diffs default [] apps safe (rw default_safe planned) in
            (diffs, system, rw (c, t, runs) refl, same ∙ ground (arith, rw planned at h))
      ]

  -- The whole host. Where the driver's plan for a host was made from the apps of the commits that
  -- the agent compares, the agent's `diff_host` succeeds, finds the same changed apps, and judges
  -- rollback safety as the plan says.
  pub diff_host_agrees :
      (host : Hostname) (current : Option Oid) (current_apps : BTreeMap String Oid)
      (target target_tree : Oid) (plan : HostPlan)
      → plan_host R s current current_apps target_tree ≡ ok plan
      → transpose_or (get_apps R s host) [] current ≡ ok current_apps
      → (find_tree R s target_tree >>= λ t. ok (tree_entries t)) ≡ get_apps R s host target
      → (diffs : BTreeMap String AppDiff) × (system : SystemDiff PathBuf) × (diff_host R s host
            apps_dir current
            (some target)
          ≡ ok (diffs, system))
        × (is_rollback_safe system ≡ plan.is_rollback_safe)
  unfolding plan_host diff_host
  diff_host_agrees host current current_apps target target_tree plan h c t =
      elim (Result-cases (find_tree R s target_tree)) [
        | inr (e, failed) ↦ cc (rw failed at h)
        | inl (tree, found) ↦
            planned_agrees host current current_apps target plan (tree_entries tree) (rw found at h)
              c (sym t ∙ rw found)
      ]
