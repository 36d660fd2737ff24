-- ===== src/Plan/Units.antt =====
-- src/plan.rs: which units `diff_enabled` enables, restarts and disables.
use mathlib.Core.List.{append-nil, append_assoc}
use deptool.Base.{
  ◌≡◌, ◌∙◌, String, List, [], ◌∷◌, ◌++◌, arith, not, string_ord, Bool-cases, inl, inr, filter,
}
use deptool.BTreeMap.{contains_key, keys}
use deptool.BTreeMap.Set.{BTreeSet}
use deptool.Plan.Changes.{UnitActions, no_unit_actions}
use deptool.Plan.Diff.{diff_enabled, enabled_loop, disabled_loop}

enabled_loop_lem :
    (prev : BTreeSet String) (names : List String) (c : UnitActions)
    → enabled_loop prev names c ≡ record c {
      enable = c.enable ++ filter (λ n. not (contains_key n prev)) names;
      restart = c.restart ++ filter (λ n. contains_key n prev) names;
    }
unfolding enabled_loop
enabled_loop_lem prev [] c = ground (arith, append-nil c.enable, append-nil c.restart)
enabled_loop_lem prev (n ∷ names) c = elim (Bool-cases (contains_key n prev)) [
  | inl e ↦ rw e (
      enabled_loop_lem prev names _
      ∙ ground (arith, append_assoc c.restart (n ∷ []) (filter (λ n. contains_key n prev) names)))
  | inr e ↦ rw e (
      enabled_loop_lem prev names _
      ∙ ground
          (arith, append_assoc c.enable (n ∷ []) (filter (λ n. not (contains_key n prev)) names)))
]

disabled_loop_lem :
    (target : BTreeSet String) (names : List String) (c : UnitActions)
    → disabled_loop target names c
      ≡ record c { disable = c.disable ++ filter (λ n. not (contains_key n target)) names }
unfolding disabled_loop
disabled_loop_lem target [] c = ground (arith, append-nil c.disable)
disabled_loop_lem target (n ∷ names) c = elim (Bool-cases (contains_key n target)) [
  | inl e ↦ rw e (disabled_loop_lem target names c)
  | inr e ↦ rw e (
      disabled_loop_lem target names _
      ∙ ground (
        arith,
        append_assoc c.disable (n ∷ []) (filter (λ n. not (contains_key n target)) names),
      ))
]

-- In the order of the sets, a unit that only the target enables is enabled, one that both enable
-- is restarted, and one that only the previous set enables is disabled.
pub diff_enabled_lem :
    (prev target : BTreeSet String)
    → diff_enabled prev target ≡ record {
      enable = filter (λ n. not (contains_key n prev)) (keys target);
      restart = filter (λ n. contains_key n prev) (keys target);
      disable = filter (λ n. not (contains_key n target)) (keys prev);
    }
unfolding diff_enabled
diff_enabled_lem prev target =
    disabled_loop_lem target (keys prev) _
    ∙ ground (arith, enabled_loop_lem prev (keys target) no_unit_actions)
