-- ===== src/Plan/Filter.antt =====
-- src/plan.rs: `HostFilter`, the value of `--limit`.
pub mod Laws
use Prim.Native.Char.{code}
use deptool.Base.{
  ◌≡◌, refl, String, Bool, true, false, not, Option, none, some, List, [], ◌∷◌, ◌++◌, arith, Result,
  ok, err, ◌>>=◌, ◌==◌, string_ord, nat_eq, filter, is_empty, contains, if◌then◌else◌, inl, inr,
  Bool-cases,
}
use deptool.BTreeMap.{BTreeMap, get, contains_key, retain, IsSorted}
use deptool.BTreeMap.Laws.{get-retain}
use deptool.Types.{Hostname}
use deptool.Error.{Error, empty_limit, unknown_hosts}

pub data HostFilter : Type 0 where
  everything : HostFilter
  only : List Hostname → HostFilter

abbrev pub on_first : (String → String) → List String → List String
on_first f [] = f "" ∷ []
on_first f (s ∷ ss) = f s ∷ ss

-- `s.split(',')`
pub split_commas : String → List String
split_commas String.[] = "" ∷ []
split_commas (String.◌∷◌ c s) =
    let rest = split_commas s in
    if nat_eq (code c) b',' then "" ∷ rest else on_first (λ t. String.◌∷◌ c t) rest

pub split_all : List String → List String
unfolding split_commas
split_all [] = []
split_all (s ∷ ss) = split_commas s ++ split_all ss

unfoldable pub from_limit : List String → Result Error HostFilter
unfolding split_all
from_limit [] = ok everything
from_limit (arg ∷ args) =
    let hosts = filter (λ s. not (s == "")) (split_all (arg ∷ args)) in
    if is_empty hosts then err empty_limit else ok (only hosts)

module _ {ℓ} {V : Type ℓ} where
  -- The hosts that the filter leaves, or the names that it does not know.
  unfoldable pub apply : HostFilter → BTreeMap Hostname V → Result Error (BTreeMap Hostname V)
  apply everything hosts = ok hosts
  apply (only limit) hosts =
      let unknown = filter (λ h. not (contains_key h hosts)) limit in
      if not (is_empty unknown)
      then err (unknown_hosts unknown)
      else ok (retain (λ h _. contains limit h) hosts)
