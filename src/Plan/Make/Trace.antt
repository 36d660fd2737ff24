-- ===== src/Plan/Make/Trace.antt =====
-- src/plan.rs: where each host plan of `make_plan` comes from.
use mathlib.Core.Path.{subst}
use mathlib.Core.Option.{some-injective}
use deptool.Base.{
  ok-injective, ◌≡◌, sym, ◌∙◌, ap, none, some, [], ◌∷◌, arith, ◌⊎◌, inl, inr, ok, Result-cases,
  Option-cases, Bool-cases, ◌==◌, string_ord,
}
use deptool.BTreeMap.{BTreeMap, get, insert, IsSorted, AllAbove}
use deptool.BTreeMap.Laws.{get-cons, get-insert, get-AllAbove}
use deptool.Types.{Oid, Hostname}
use deptool.Store.Repository.{Repository, Tree}
use deptool.Store.Refs.{HostRef}
use deptool.Store.Trees.{find_tree, tree_entries}
use deptool.Plan.Changes.{HostPlan}
use deptool.Plan.Make.{Progress, plan_host, host_step, hosts_loop}

module _ (R : Repository) (s : R.State) (refs : BTreeMap Hostname HostRef) where
  -- The plan of a host is made from no apps if the host is new, or from those of its tracked tree.
  abbrev pub PlannedAs : Hostname → Oid → HostPlan → Type 0
  PlannedAs host target plan =
      ((get host refs ≡ none) × (plan_host R s none [] target ≡ ok plan))
      ⊎ ((hr : HostRef) × (t : Tree) × (get host refs ≡ some hr)
          × (find_tree R s hr.host_tree ≡ ok t)
          × (plan_host R s (some hr.commit) (tree_entries t) target ≡ ok plan))

  -- A host's plan after a step stood there before, or was made in the step.
  inserted :
      (host k : Hostname) (target : Oid) (hosts : BTreeMap Hostname HostPlan) (made plan : HostPlan)
      → PlannedAs host target made
      → get k (insert host made hosts) ≡ some plan
      → (get k hosts ≡ some plan) ⊎ ((k ≡ host) × PlannedAs host target plan)
  inserted host k target hosts made plan planned g = elim (Bool-cases (k == host)) [
    | inl same ↦ inr (
      (string_ord.beq_iff k host).0 same,
      subst (PlannedAs host target)
          (some-injective made plan (sym (get-insert k host made hosts ∙ rw same) ∙ g)) planned,
    )
    | inr differ ↦ inl (sym (get-insert k host made hosts ∙ rw differ) ∙ g)
  ]

  step_new :
      (host : Hostname) (target : Oid) (p p' : Progress) (k : Hostname) (plan : HostPlan)
      → get host refs ≡ none
      → host_step R s refs host target p ≡ ok p'
      → get k p'.hosts ≡ some plan
      → (get k p.hosts ≡ some plan) ⊎ ((k ≡ host) × PlannedAs host target plan)
  unfolding host_step
  step_new host target p p' k plan new e g = elim (Result-cases (plan_host R s none [] target)) [
    | inr (_, failed) ↦ cc (rw (new, failed, host_step) at e)
    | inl (made, planned) ↦ inserted host k target p.hosts made plan (inl (new, planned)) (
        ap (λ (q : Progress). get k q.hosts) (ok-injective (rw (new, planned, host_step) at e)) ∙ g)
  ]

  step_known :
      (host : Hostname) (target : Oid) (p p' : Progress) (k : Hostname) (plan : HostPlan)
      (hr : HostRef)
      → get host refs ≡ some hr
      → host_step R s refs host target p ≡ ok p'
      → get k p'.hosts ≡ some plan
      → (get k p.hosts ≡ some plan) ⊎ ((k ≡ host) × PlannedAs host target plan)
  unfolding host_step
  step_known host target p p' k plan hr known e g = elim (Bool-cases (hr.host_tree == target)) [
    | inl same ↦
        inl (
          ap (λ (q : Progress). get k q.hosts) (ok-injective (rw (known, same, host_step) at e))
          ∙ g)
    | inr differ ↦ elim (Result-cases (find_tree R s hr.host_tree)) [
      | inr (_, failed) ↦ cc (rw (known, differ, failed, host_step) at e)
      | inl (t, found) ↦
          elim (Result-cases (plan_host R s (some hr.commit) (tree_entries t) target)) [
            | inr (_, failed) ↦ cc (rw failed at (rw (known, differ, found, host_step) at e))
            | inl (made, planned) ↦
                inserted host k target p.hosts made plan (inr (hr, t, known, found, planned)) (
                  ap (λ (q : Progress). get k q.hosts)
                    (ok-injective (rw planned at (rw (known, differ, found, host_step) at e)))
                  ∙ g)
          ]
    ]
  ]

  step_trace :
      (host : Hostname) (target : Oid) (p p' : Progress) (k : Hostname) (plan : HostPlan)
      → host_step R s refs host target p ≡ ok p'
      → get k p'.hosts ≡ some plan
      → (get k p.hosts ≡ some plan) ⊎ ((k ≡ host) × PlannedAs host target plan)
  step_trace host target p p' k plan e g = elim (Option-cases (get host refs)) [
    | inl new ↦ step_new host target p p' k plan new e g
    | inr (hr, known) ↦ step_known host target p p' k plan hr known e g
  ]

  -- The host stands in the configuration, with the tree that its plan is for.
  abbrev pub IsPlanned : BTreeMap Hostname Oid → Hostname → HostPlan → Type 0
  IsPlanned config k plan = (target : Oid) × (get k config ≡ some target) × PlannedAs k target plan

  IsPlanned-cons :
      (host : Hostname) (oid : Oid) (config : BTreeMap Hostname Oid) (k : Hostname)
      (plan : HostPlan)
      → AllAbove host config
      → IsPlanned config k plan
      → IsPlanned ((host, oid) ∷ config) k plan
  IsPlanned-cons host oid config k plan a (target, listed, planned) = (
    target,
    ground
        (arith, get-cons k host oid config, get-AllAbove host config a, string_ord.beq_iff k host),
    planned,
  )

  IsPlanned-head :
      (host : Hostname) (oid : Oid) (config : BTreeMap Hostname Oid) (k : Hostname)
      (plan : HostPlan)
      → k ≡ host
      → PlannedAs host oid plan
      → IsPlanned ((host, oid) ∷ config) k plan
  IsPlanned-head host oid config k plan same planned = (
    oid,
    ground (arith, get-cons k host oid config, string_ord.beq_iff k host),
    subst (λ h. PlannedAs h oid plan) (sym same) planned,
  )

  pub hosts_loop_trace :
      (config : BTreeMap Hostname Oid) (p p' : Progress) (k : Hostname) (plan : HostPlan)
      → IsSorted config
      → hosts_loop R s refs config p ≡ ok p'
      → get k p'.hosts ≡ some plan
      → (get k p.hosts ≡ some plan) ⊎ IsPlanned config k plan
  unfolding hosts_loop
  hosts_loop_trace [] p p' k plan sorted e g =
      inl (ap (λ (q : Progress). get k q.hosts) (ok-injective e) ∙ g)
  hosts_loop_trace ((host, oid) ∷ config) p p' k plan sorted e g =
      elim (Result-cases (host_step R s refs host oid p)) [
        | inr (_, failed) ↦ cc (rw failed at e)
        | inl (q, stepped) ↦
            elim (hosts_loop_trace config q p' k plan sorted.1 (rw stepped at e) g) [
              | inr later ↦ inr (IsPlanned-cons host oid config k plan sorted.0 later)
              | inl here ↦ elim (step_trace host oid p q k plan stepped here) [
                | inl before ↦ inl before
                | inr (same, planned) ↦ inr (IsPlanned-head host oid config k plan same planned)
              ]
            ]
      ]
