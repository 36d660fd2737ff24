-- ===== src/Plan/Apps/Patch.antt =====
-- src/plan.rs: a host's apps after the differences of `diff_apps` are carried out.
use deptool.Base.{
  ◌≡◌, refl, sym, ◌∙◌, ◌↔◌, String, Option, none, some, [], ◌∷◌, arith, not, ◌==◌, string_ord,
  if◌then◌else◌,
}
use deptool.BTreeMap.{BTreeMap, get, insert, retain, IsSorted}
use deptool.BTreeMap.Laws.{
  get-nil, get-cons, get-insert, get-AllAbove, insert-IsSorted, get-retain, retain-IsSorted,
}
use deptool.BTreeMap.Ext.{ext}
use deptool.Types.{Oid}
use deptool.Plan.Changes.{AppDiff, add, remove, update}
use deptool.Plan.Diff.{diff_apps}
use deptool.Plan.Apps.{app_change, get-diff_apps, diff_apps-IsSorted}

-- What a host's set of app trees becomes when the differences are carried out one by one.
pub patch_app : String → AppDiff → BTreeMap String Oid → BTreeMap String Oid
patch_app app (add new) apps = insert app new apps
patch_app app (remove old) apps = retain (λ name _. not (name == app)) apps
patch_app app (update old new) apps = insert app new apps

pub patch : BTreeMap String AppDiff → BTreeMap String Oid → BTreeMap String Oid
unfolding patch_app
patch [] apps = apps
patch ((app, diff) ∷ diffs) apps = patch diffs (patch_app app diff apps)

abbrev patched : Option AppDiff → Option Oid → Option Oid
patched none before = before
patched (some (add new)) before = some new
patched (some (remove old)) before = none
patched (some (update old new)) before = some new

patch_app-IsSorted :
    (app : String) (d : AppDiff) (apps : BTreeMap String Oid)
    → IsSorted apps
    → IsSorted (patch_app app d apps)
unfolding patch_app
patch_app-IsSorted app (add new) apps s = insert-IsSorted app new apps s
patch_app-IsSorted app (remove old) apps s = retain-IsSorted _ apps s
patch_app-IsSorted app (update old new) apps s = insert-IsSorted app new apps s

get-patch_app :
    (k app : String) (d : AppDiff) (apps : BTreeMap String Oid)
    → IsSorted apps
    → get k (patch_app app d apps)
      ≡ (if k == app then patched (some d) (get k apps) else get k apps)
unfolding patch_app
get-patch_app k app (add new) apps s = get-insert k app new apps
get-patch_app k app (remove old) apps s =
    ground (arith, get-retain (λ name _. not (name == app)) k apps s)
get-patch_app k app (update old new) apps s = get-insert k app new apps

patch-IsSorted :
    (diffs : BTreeMap String AppDiff) (apps : BTreeMap String Oid)
    → IsSorted apps
    → IsSorted (patch diffs apps)
unfolding patch
patch-IsSorted [] apps s = s
patch-IsSorted ((app, d) ∷ diffs) apps s =
    patch-IsSorted diffs (patch_app app d apps) (patch_app-IsSorted app d apps s)

get-patch :
    (k : String) (diffs : BTreeMap String AppDiff) (apps : BTreeMap String Oid)
    → IsSorted diffs
    → IsSorted apps
    → get k (patch diffs apps) ≡ patched (get k diffs) (get k apps)
unfolding patch
get-patch k [] apps s t = rw (get-nil {V = AppDiff} k) refl
get-patch k ((app, d) ∷ diffs) apps s t =
    let rest = get-patch k diffs (patch_app app d apps) s.1 (patch_app-IsSorted app d apps t) in
    ground (
      arith,
      rest,
      string_ord.beq_iff k app,
      get-cons k app d diffs,
      get-AllAbove app diffs s.0,
      get-patch_app k app d apps t,
    )

patched-app_change : (before after : Option Oid) → patched (app_change before after) before ≡ after
patched-app_change none none = refl
patched-app_change none (some new) = refl
patched-app_change (some old) none = refl
patched-app_change (some old) (some new) = ground (arith, string_ord.beq_iff old new)

-- For maps in key order, carrying out the differences of `diff_apps` on the current apps gives
-- exactly the target apps.
pub patch-diff_apps :
    (current target : BTreeMap String Oid)
    → IsSorted current
    → IsSorted target
    → patch (diff_apps current target) current ≡ target
patch-diff_apps current target s t = ext _ target (patch-IsSorted _ current s) t λ k.
    get-patch k (diff_apps current target) current (diff_apps-IsSorted current target) s
    ∙ (rw (get-diff_apps k current target s t) (patched-app_change (get k current) (get k target)))

app_change_self : (o : Option Oid) → app_change o o ≡ none
app_change_self none = refl
app_change_self (some a) = ground (arith, string_ord.beq_iff a a)

-- For maps in key order, `diff_apps` finds nothing to do exactly when the two maps are equal.
pub diff_apps-eq-nil_iff :
    (current target : BTreeMap String Oid)
    → IsSorted current
    → IsSorted target
    → (diff_apps current target ≡ []) ↔ (current ≡ target)
unfolding patch
diff_apps-eq-nil_iff current target s t = (
  λ e. rw e at (patch-diff_apps current target s t),
  λ e. rw (← e) (
      ext _ [] (diff_apps-IsSorted current current) tt λ k.
        get-diff_apps k current current s s ∙ (app_change_self (get k current) ∙ sym (get-nil k))),
)
