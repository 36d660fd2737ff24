-- ===== src/Status/Changes.antt =====
-- src/status.rs: when a host is shown as up to date.
use deptool.Base.{
  ◌≡◌, refl, sym, ◌∙◌, ap, ◌↔◌, String, ℕ, Bool, true, false, some, [], ◌∷◌, ok, Result-cases,
  ok-injective, inl, inr,
}
use deptool.BTreeMap.{BTreeMap}
use deptool.Types.{Oid}
use deptool.Store.Repository.{Repository, Tree}
use deptool.Store.Refs.{HostRef}
use deptool.Store.Trees.{find_tree, tree_entries}
use deptool.Store.Trees.Entries.{tree_entries-IsSorted}
use deptool.Plan.Changes.{AppDiff}
use deptool.Plan.Diff.{diff_apps}
use deptool.Plan.Apps.Patch.{diff_apps-eq-nil_iff}
use deptool.Status.{HostStatus, new_host, up_to_date, has_changes, tracked_status, host_status}

abbrev pub is_up_to_date : HostStatus → Bool
is_up_to_date (up_to_date _ _) = true
is_up_to_date new_host = false
is_up_to_date (has_changes _ _ _) = false

tracked_status_lem :
    (commit : Oid) (time : ℕ) (diffs : BTreeMap String AppDiff)
    → (is_up_to_date (tracked_status commit time diffs) ≡ true) ↔ (diffs ≡ [])
tracked_status_lem commit time [] = (λ e. refl, λ e. refl)
tracked_status_lem commit time (d ∷ ds) = (λ e. cc, λ e. cc)

-- Where the status of a host with a tracking reference is computed and both trees can be read, the
-- host is up to date exactly when the configuration has the same apps for it, at the same trees,
-- as the tree that the reference gives.
pub host_status_up_to_date :
    (R : Repository) (s : R.State) (hr : HostRef) (target : Oid) (current_tree target_tree : Tree)
    (st : HostStatus)
    → host_status R s (some hr) target ≡ ok st
    → find_tree R s hr.host_tree ≡ ok current_tree
    → find_tree R s target ≡ ok target_tree
    → (is_up_to_date st ≡ true) ↔ (tree_entries current_tree ≡ tree_entries target_tree)
unfolding host_status
host_status_up_to_date R s hr target current_tree target_tree st done c t =
    elim (Result-cases (R.find_commit s hr.commit)) [
      | inr (_, failed) ↦ cc (rw (c, t, failed) at done)
      | inl (commit, found) ↦
          let diffs = diff_apps (tree_entries current_tree) (tree_entries target_tree) in
          let same : tracked_status hr.commit commit.time diffs ≡ st =
            ok-injective (rw found at (rw t at (rw c at done))) in
          let shown = tracked_status_lem hr.commit commit.time diffs in
          let equal =
            diff_apps-eq-nil_iff (tree_entries current_tree) (tree_entries target_tree)
              (tree_entries-IsSorted current_tree) (tree_entries-IsSorted target_tree) in
          (
            λ e. equal.0 (shown.0 (ap is_up_to_date same ∙ e)),
            λ e. sym (ap is_up_to_date same) ∙ shown.1 (equal.1 e),
          )
    ]
