-- ===== src/Plan/Apps.antt =====
-- src/plan.rs: what `diff_apps` computes, app by app.
pub mod Patch
use deptool.Base.{
  ◌≡◌, refl, sym, ◌∙◌, ◌↔◌, String, Bool, true, false, Option, none, some, List, [], ◌∷◌, arith,
  not, Ord, ◌==◌, string_ord, if◌then◌else◌, Option-cases, inl, inr,
}
use deptool.BTreeMap.{BTreeMap, get, insert, retain, contains_key, IsSorted, AllAbove}
use deptool.BTreeMap.Laws.{
  get-nil, get-cons, get-insert, get-AllAbove, insert-IsSorted, get-retain, retain-IsSorted,
}
use deptool.BTreeMap.Ext.{ext}
use deptool.Types.{Oid}
use deptool.Plan.Changes.{AppDiff, add, remove, update}
use deptool.Plan.Diff.{diff_apps, changed_step, changed_loop, removed_step, removed_loop}

-- What becomes of one app, from its tree before and after.
abbrev pub app_change : Option Oid → Option Oid → Option AppDiff
app_change none none = none
app_change none (some new) = some (add new)
app_change (some old) none = some (remove old)
app_change (some old) (some new) = if old == new then none else some (update old new)

-- The lookups of the map that the first loop leaves, from those of the map that it began with.
abbrev after_changed : Option Oid → Option Oid → Option AppDiff → Option AppDiff
after_changed current none before = before
after_changed none (some new) before = some (add new)
after_changed (some old) (some new) before = if old == new then before else some (update old new)

get-changed_step :
    (k name : String) (new : Oid) (current : BTreeMap String Oid)
    (changes : BTreeMap String AppDiff)
    → get k (changed_step current name new changes) ≡ (
        if k == name
        then after_changed (get k current) (some new) (get k changes)
        else get k changes)
unfolding changed_step
get-changed_step k name new current changes = elim (Option-cases (get name current)) [
  | inl e ↦
      rw (e, changed_step)
        (ground (arith, e, string_ord.beq_iff k name, get-insert k name (add new) changes))
  | inr (old, e) ↦
      rw (e, changed_step)
        (ground (arith, e, string_ord.beq_iff k name, get-insert k name (update old new) changes))
]

get-changed_loop :
    (k : String) (current target : BTreeMap String Oid) (changes : BTreeMap String AppDiff)
    → IsSorted target
    → get k (changed_loop current target changes)
      ≡ after_changed (get k current) (get k target) (get k changes)
unfolding changed_loop
get-changed_loop k current [] changes s = rw (get-nil {V = Oid} k) (ground arith)
get-changed_loop k current ((name, new) ∷ target) changes s =
    let rest = get-changed_loop k current target (changed_step current name new changes) s.1 in
    ground (
      arith,
      rest,
      string_ord.beq_iff k name,
      get-cons k name new target,
      get-AllAbove name target s.0,
      get-changed_step k name new current changes,
    )

-- The second loop adds a removal for each current app that is no longer wanted.
abbrev after_removed : Option Oid → Option Oid → Option AppDiff → Option AppDiff
after_removed none target before = before
after_removed (some old) (some new) before = before
after_removed (some old) none before = some (remove old)

get-removed_step :
    (k name : String) (old : Oid) (target : BTreeMap String Oid) (changes : BTreeMap String AppDiff)
    → get k (removed_step target name old changes) ≡ (
        if k == name
        then after_removed (some old) (get k target) (get k changes)
        else get k changes)
unfolding removed_step
get-removed_step k name old target changes = elim (Option-cases (get name target)) [
  | inl e ↦
      rw (e, removed_step)
        (ground (arith, e, string_ord.beq_iff k name, get-insert k name (remove old) changes))
  | inr (new, e) ↦ rw (e, removed_step) (ground (arith, e, string_ord.beq_iff k name))
]

get-removed_loop :
    (k : String) (target current : BTreeMap String Oid) (changes : BTreeMap String AppDiff)
    → IsSorted current
    → get k (removed_loop target current changes)
      ≡ after_removed (get k current) (get k target) (get k changes)
unfolding removed_loop
get-removed_loop k target [] changes s = rw (get-nil {V = Oid} k) refl
get-removed_loop k target ((name, old) ∷ current) changes s =
    let rest = get-removed_loop k target current (removed_step target name old changes) s.1 in
    ground (
      arith,
      rest,
      string_ord.beq_iff k name,
      get-cons k name old current,
      get-AllAbove name current s.0,
      get-removed_step k name old target changes,
    )

-- For maps in key order, an app is in the result of `diff_apps` exactly as its two trees say:
-- added, removed, updated, or left out if both have the same tree.
pub get-diff_apps :
    (k : String) (current target : BTreeMap String Oid)
    → IsSorted current
    → IsSorted target
    → get k (diff_apps current target) ≡ app_change (get k current) (get k target)
unfolding diff_apps
get-diff_apps k current target s t = ground (
  arith,
  get-removed_loop k target current (changed_loop current target []) s,
  get-changed_loop k current target [] t,
  get-nil {V = AppDiff} k,
)

changed_step-IsSorted :
    (name : String) (new : Oid) (current : BTreeMap String Oid) (changes : BTreeMap String AppDiff)
    → IsSorted changes
    → IsSorted (changed_step current name new changes)
unfolding changed_step
changed_step-IsSorted name new current changes s = elim (Option-cases (get name current)) [
  | inl e ↦ rw (e, changed_step) (insert-IsSorted name (add new) changes s)
  | inr (old, e) ↦
      rw (e, changed_step) (ground (arith, insert-IsSorted name (update old new) changes s))
]

changed_loop-IsSorted :
    (current target : BTreeMap String Oid) (changes : BTreeMap String AppDiff)
    → IsSorted changes
    → IsSorted (changed_loop current target changes)
unfolding changed_loop
changed_loop-IsSorted current [] changes s = s
changed_loop-IsSorted current ((name, new) ∷ target) changes s =
    changed_loop-IsSorted current target _ (changed_step-IsSorted name new current changes s)

removed_loop-IsSorted :
    (target current : BTreeMap String Oid) (changes : BTreeMap String AppDiff)
    → IsSorted changes
    → IsSorted (removed_loop target current changes)
unfolding removed_loop
removed_loop-IsSorted target [] changes s = s
removed_loop-IsSorted target ((name, old) ∷ current) changes s =
    removed_loop-IsSorted target current _
      (ground (arith, insert-IsSorted name (remove old) changes s))

pub diff_apps-IsSorted :
    (current target : BTreeMap String Oid) → IsSorted (diff_apps current target)
unfolding diff_apps
diff_apps-IsSorted current target =
    removed_loop-IsSorted target current _ (changed_loop-IsSorted current target [] tt)
