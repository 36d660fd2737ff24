-- ===== src/Plan/Make/Origin.antt =====
-- src/plan.rs: the host plans of `make_plan`, traced to the configuration tree and the tracking
-- references.
use mathlib.Core.Path.{subst}
use deptool.Base.{
  ◌≡◌, sym, ◌∙◌, ap, Option, none, some, List, [], arith, inl, inr, Result, ok, err, >>=-eq-ok,
  attempt, map_err, map_failed, Result-cases, Bool-cases, ok-injective, is_empty, not, contains,
  filter, string_ord,
}
use deptool.BTreeMap.{BTreeMap, get, contains_key, keys, IsSorted}
use deptool.BTreeMap.Laws.{get-nil, retain-IsSorted}
use deptool.Types.{Oid, Hostname}
use deptool.Error.{store_err}
use deptool.Store.Repository.{Repository, Tree}
use deptool.Store.Refs.{HostRef, host_tracking_refs}
use deptool.Store.Trees.{find_tree, host_trees, tree_entries}
use deptool.Store.Trees.Entries.{tree_entries-IsSorted}
use deptool.Store.Validate.{validate}
use deptool.Store.Frontier.{frontier}
use deptool.Plan.Changes.{HostPlan}
use deptool.Plan.Filter.{HostFilter, everything, only, apply}
use deptool.Plan.Filter.Laws.{apply-IsFiltered, IsFiltered}
use deptool.Plan.Make.{DraftPlan, Progress, hosts_loop, draft, make_plan}
use deptool.Plan.Make.Trace.{PlannedAs, hosts_loop_trace}

module _ {E F A : Type 0} where
  attempt-eq-ok : (f : E → F) (m : Result E A) {a : A} → attempt (map_err f m) ≡ ok a → m ≡ ok a
  attempt-eq-ok f (ok a) h = ap ok (ok-injective h)
  attempt-eq-ok f (err e) h = cc

module _ {E A : Type 0} where
  attempt_inverse : (m : Result E A) {a : A} → attempt m ≡ ok a → m ≡ ok a
  attempt_inverse (ok a) h = ap ok (ok-injective h)
  attempt_inverse (err e) h = cc

pub apply-IsSorted :
    {V : Type 0} (f : HostFilter) (hosts left : BTreeMap Hostname V)
    → IsSorted hosts
    → apply f hosts ≡ ok left
    → IsSorted left
unfolding apply
apply-IsSorted everything hosts left s e = rw (← ok-injective e) s
apply-IsSorted (only limit) hosts left s e =
    elim (Bool-cases (is_empty (filter (λ h. not (contains_key h hosts)) limit))) [
      | inl known ↦
          rw (← ok-injective (rw (known, apply) at e))
            (retain-IsSorted (λ h _. contains limit h) hosts s)
      | inr unknown ↦ cc (rw (unknown, apply) at e)
    ]

hosts_or_nil : Option DraftPlan → BTreeMap Hostname HostPlan
hosts_or_nil none = []
hosts_or_nil (some d) = d.hosts

module _ (R : Repository) (s : R.State) (tree_oid : Oid) (filter : HostFilter) where
  -- The loop over the hosts that the draft comes from.
  record Origin (d : DraftPlan) : Type 0 where
    config_tree : Tree
    config : BTreeMap Hostname Oid
    refs : BTreeMap Hostname HostRef
    reads : find_tree R s tree_oid ≡ ok config_tree
    filtered : apply filter (tree_entries config_tree) ≡ ok config
    tracked : host_tracking_refs R s (keys config) ≡ ok refs
    p : Progress
    loops : hosts_loop R s refs config (record { parent_commits = []; hosts = [] }) ≡ ok p
    same : d.hosts ≡ p.hosts

  draft_hosts :
      (p : Progress) (d : DraftPlan) → draft R s tree_oid p ≡ ok (some d) → d.hosts ≡ p.hosts
  unfolding draft hosts_or_nil
  draft_hosts p d e = elim (Bool-cases (is_empty p.hosts)) [
    | inl nothing ↦ cc (rw (nothing, draft) at e)
    | inr changes ↦ elim (Result-cases (frontier R s p.parent_commits)) [
      | inr (_, failed) ↦ cc (rw failed at (rw (changes, draft) at e))
      | inl (parents, found) ↦
          sym (ap hosts_or_nil (ok-injective (rw found at (rw (changes, draft) at e))))
    ]
  ]

  make_plan-Origin : (d : DraftPlan) → make_plan R s tree_oid filter ≡ ok (some d) → Origin d
  unfolding make_plan host_trees
  make_plan-Origin d made =
      let (_, _, e1) = >>=-eq-ok (map_failed store_err (validate R s tree_oid)) _ made in
      let (all_hosts, listed, e2) =
        >>=-eq-ok (attempt (map_err store_err (host_trees R s tree_oid))) _ e1 in
      let (config, filtered, e3) = >>=-eq-ok (attempt (apply filter all_hosts)) _ e2 in
      let (refs, tracked, e4) =
        >>=-eq-ok (attempt (map_err store_err (host_tracking_refs R s (keys config)))) _ e3 in
      let start : Progress = record { parent_commits = []; hosts = [] } in
      let (p, loops, e5) =
        >>=-eq-ok (attempt (map_err store_err (hosts_loop R s refs config start))) _ e4 in
      let (config_tree, found, same_hosts) =
        >>=-eq-ok (find_tree R s tree_oid) _
          (attempt-eq-ok store_err (host_trees R s tree_oid) listed) in
      record {
        config_tree = config_tree;
        config = config;
        refs = refs;
        p = p;
        reads = found;
        filtered =
            subst (λ hosts. apply filter hosts ≡ ok config) (sym (ok-injective same_hosts))
              (attempt_inverse (apply filter all_hosts) filtered);
        tracked = attempt-eq-ok store_err (host_tracking_refs R s (keys config)) tracked;
        loops = attempt-eq-ok store_err (hosts_loop R s refs config start) loops;
        same = draft_hosts p d (attempt-eq-ok store_err (draft R s tree_oid p) e5);
      }

  -- A host's plan, from its entry in the configuration tree.
  pub record Planned (d : DraftPlan) (host : Hostname) (plan : HostPlan) : Type 0 where
    pub config_tree : Tree
    pub refs : BTreeMap Hostname HostRef
    pub hosts : List Hostname
    pub target : Oid
    pub reads : find_tree R s tree_oid ≡ ok config_tree
    pub tracked : host_tracking_refs R s hosts ≡ ok refs
    pub listed : get host (tree_entries config_tree) ≡ some target
    pub planned : PlannedAs R s refs host target plan

  Origin-Planned :
      (d : DraftPlan) (host : Hostname) (plan : HostPlan)
      → Origin d
      → get host d.hosts ≡ some plan
      → Planned d host plan
  Origin-Planned d host plan o g =
      let hosts = tree_entries o.config_tree in
      let sorted = tree_entries-IsSorted o.config_tree in
      let kept =
        subst (IsFiltered filter hosts) o.filtered (apply-IsFiltered filter hosts sorted) in
      elim (hosts_loop_trace R s o.refs o.config (record { parent_commits = []; hosts = [] }) o.p
        host plan (apply-IsSorted filter hosts o.config sorted o.filtered) o.loops
        (sym (ap (λ m. get host m) o.same) ∙ g)) [
          | inl nothing ↦ cc (get-nil {V = HostPlan} host)
          | inr (target, in_config, planned) ↦ record {
            config_tree = o.config_tree;
            refs = o.refs;
            hosts = keys o.config;
            target = target;
            reads = o.reads;
            tracked = o.tracked;
            listed = ground (arith, kept.1 host, in_config);
            planned = planned;
          }
        ]

  pub make_plan-Planned :
      (d : DraftPlan) (host : Hostname) (plan : HostPlan)
      → make_plan R s tree_oid filter ≡ ok (some d)
      → get host d.hosts ≡ some plan
      → Planned d host plan
  make_plan-Planned d host plan made g = Origin-Planned d host plan (make_plan-Origin d made) g
