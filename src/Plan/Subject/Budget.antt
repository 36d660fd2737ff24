-- ===== src/Plan/Subject/Budget.antt =====
-- src/plan.rs: the subject of the deploy commit fits its budget, so that the `expect` does not panic.
use Prim.Native.String.{len}
use text.Mathlib.TextPositions.{len-append}
use deptool.Base.{
  ◌≡◌, refl, String, ◌<>◌, ℕ, ◌+◌, ◌≤◌, ◌<◌, Bool, true, false, some, List, [], ◌∷◌, ok, arith,
  length, leb, nat_eq, if◌then◌else◌, Bool-cases, inl, inr, string_ord,
}
use deptool.BTreeMap.{keys}
use deptool.BTreeMap.Set.{collect}
use deptool.Deploy.Progress.{show_nat}
use deptool.Deploy.Progress.Digits.{Fits, len-show_nat}
use deptool.Plan.Make.{DraftPlan}
use deptool.Plan.Subject.{
  subject_budget, changed_apps, all_updates, verb_of, counted, candidates, find_fitting, subject,
}

len-verb : (b : Bool) → len (verb_of b) ≡ 6
len-verb true = refl
len-verb false = refl

len-noun :
    (b : Bool) (one many : String) (k : ℕ)
    → len one ≤ k
    → len many ≤ k
    → len (if b then one else many) ≤ k
len-noun true one many k h j = h
len-noun false one many k h j = j

len-counted :
    (n : ℕ) (one many : String) (k : ℕ)
    → Fits 15 n
    → len one ≤ k
    → len many ≤ k
    → len (counted n one many) ≤ 16 + k
unfolding counted
len-counted n one many k f h j = omega (
  arith,
  len-append (show_nat n) (" " <> (if nat_eq n 1 then one else many)),
  len-append " " (if nat_eq n 1 then one else many),
  len-show_nat 15 n f,
  len-noun (nat_eq n 1) one many k h j,
)

-- Some candidate is found, and fits, if the last one fits.
abbrev FindsFitting : List String → Type 0
FindsFitting ss = (s : String) × (find_fitting ss ≡ some s) × (len s ≤ subject_budget)

fitting-here : (s : String) (ss : List String) → FindsFitting ss → FindsFitting (s ∷ ss)
unfolding find_fitting
fitting-here s ss (t, e, h) = elim (Bool-cases (leb (len s) subject_budget)) [
  | inl fits ↦ (s, rw fits refl, ground arith)
  | inr long ↦ (t, rw long e, h)
]

fitting-last : (s : String) → len s ≤ subject_budget → FindsFitting (s ∷ [])
unfolding find_fitting
fitting-last s h = (s, ground arith, h)

candidates-FindsFitting :
    (updates : Bool) (apps hosts : List String)
    → Fits 15 (length apps)
    → Fits 15 (length hosts)
    → FindsFitting (candidates (verb_of updates) apps hosts)
unfolding candidates
candidates-FindsFitting updates [] hosts f g = fitting-here _ _ (
    fitting-last _ (
      omega (
        arith,
        len-append "Deploy " (counted (length hosts) "host" "hosts"),
        len-counted (length hosts) "host" "hosts" 5 g (omega arith) (omega arith),
      )))
candidates-FindsFitting updates (a ∷ apps) hosts f g =
    let n = length (a ∷ apps) in
    let count_apps = counted n "app" "apps" in
    let count_hosts = counted (length hosts) "host" "hosts" in
    fitting-here _ _ (
      fitting-here _ _ (
        fitting-last _ (
          omega (
            arith,
            len-verb updates,
            len-append (verb_of updates) (" " <> (count_apps <> (" on " <> count_hosts))),
            len-append " " (count_apps <> (" on " <> count_hosts)),
            len-append count_apps (" on " <> count_hosts),
            len-append " on " count_hosts,
            len-counted n "app" "apps" 4 f (omega arith) (omega arith),
            len-counted (length hosts) "host" "hosts" 5 g (omega arith) (omega arith),
          ))))

-- For fewer than 10 to the 15 hosts and changed apps, `subject` does not panic, and the subject is
-- at most as long as the budget.
pub subject-fits :
    (draft : DraftPlan)
    → length (keys (collect (changed_apps draft.hosts))) < 1000000000000000
    → length (keys draft.hosts) < 1000000000000000
    → (s : String) × (subject draft ≡ ok s) × (len s ≤ subject_budget)
unfolding subject
subject-fits draft few_apps few_hosts =
    let (s, e, h) =
      candidates-FindsFitting (all_updates draft.hosts) (keys (collect (changed_apps draft.hosts)))
        (keys draft.hosts) (omega arith) (omega arith) in
    (s, rw e refl, h)
