-- ===== src/Plan/Filter/Laws.antt =====
-- src/plan.rs: which hosts a `--limit` leaves.
use mathlib.Core.List.{append_assoc}
use Prim.Native.String.append
use deptool.Base.{
  ◌<>◌, ◌≢◌, ◌∙◌, Option-cases, ◌≡◌, refl, String, Bool, true, false, not, none, List, [], ◌∷◌,
  ◌++◌, arith, Result, ok, err, string_ord, filter, is_empty, contains, if◌then◌else◌, inl, inr,
  Bool-cases,
}
use deptool.BTreeMap.{BTreeMap, get, contains_key, IsSorted}
use deptool.BTreeMap.Laws.{get-retain}
use deptool.Types.{Hostname}
use deptool.Error.{Error, unknown_hosts}
use deptool.Plan.Filter.{
  HostFilter, everything, only, split_commas, split_all, from_limit, apply, on_first,
}

-- Whether the filter names the host, or names none.
abbrev pub selects : HostFilter → Hostname → Bool
selects everything host = true
selects (only limit) host = contains limit host

module _ {V : Type 0} where
  -- The names in the limit that the map lacks, in the order of the limit.
  abbrev pub unknown_names : HostFilter → BTreeMap Hostname V → List Hostname
  unknown_names everything hosts = []
  unknown_names (only limit) hosts = filter (λ h. not (contains_key h hosts)) limit

  -- What `apply` must return: the error that lists every unknown name, or the selected hosts.
  abbrev pub IsFiltered :
      HostFilter → BTreeMap Hostname V → Result Error (BTreeMap Hostname V) → Type 0
  IsFiltered f hosts (err e) =
      (is_empty (unknown_names f hosts) ≡ false) × (e ≡ unknown_hosts (unknown_names f hosts))
  IsFiltered f hosts (ok left) =
      (is_empty (unknown_names f hosts) ≡ true)
      × ((host : Hostname) → get host left ≡ (if selects f host then get host hosts else none))

  -- For hosts in key order, a filter that names unknown hosts is refused with all of these names,
  -- and any other leaves exactly the selected hosts, with their values.
  pub apply-IsFiltered :
      (f : HostFilter) (hosts : BTreeMap Hostname V)
      → IsSorted hosts
      → IsFiltered f hosts (apply f hosts)
  unfolding apply
  apply-IsFiltered everything hosts s = (refl, λ host. refl)
  apply-IsFiltered (only limit) hosts s =
      elim (Bool-cases (is_empty (unknown_names (only limit) hosts))) [
        | inl e ↦ rw e (
          e,
          λ host.
              get-retain (λ h _. contains limit h) host hosts s
              ∙ ground (arith, Option-cases (get host hosts)),
        )
        | inr e ↦ rw e (e, refl)
      ]

on_first-append :
    (f : String → String) (xs ys : List String)
    → xs ≢ []
    → on_first f (xs ++ ys) ≡ on_first f xs ++ ys
on_first-append f [] ys ne = absurd (ne refl)
on_first-append f (x ∷ xs) ys ne = refl

on_first-ne-nil : (f : String → String) (xs : List String) → on_first f xs ≢ []
on_first-ne-nil f [] e = cc
on_first-ne-nil f (x ∷ xs) e = cc

split_commas-ne-nil : (s : String) → split_commas s ≢ []
unfolding split_commas
split_commas-ne-nil String.[] e = cc
split_commas-ne-nil (String.◌∷◌ c s) e =
    ground (arith, on_first-ne-nil (λ t. String.◌∷◌ c t) (split_commas s))

-- A comma between two texts splits them.
split_commas-comma :
    (s t : String) → split_commas (s <> ("," <> t)) ≡ split_commas s ++ split_commas t
unfolding split_commas
split_commas-comma String.[] t = rw (append.nil ("," <> t), append.cons "," "" t, append.nil t)
split_commas-comma (String.◌∷◌ c s) t =
    rw (append.cons c s ("," <> t), split_commas-comma s t)
      (ground (
        arith,
        on_first-append (λ u. String.◌∷◌ c u) (split_commas s) (split_commas t)
            (split_commas-ne-nil s),
      ))

-- Two limits at the head of the arguments select what the two joined by a comma select, also among
-- further limits.
pub from_limit-comma :
    (s t : String) (args : List String)
    → from_limit (s ∷ t ∷ args) ≡ from_limit ((s <> ("," <> t)) ∷ args)
unfolding from_limit
from_limit-comma s t args =
    rw (split_commas-comma s t, append_assoc (split_commas s) (split_commas t) (split_all args))
