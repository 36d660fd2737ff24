-- ===== src/Store/Frontier.antt =====
-- src/store.rs: `frontier`, the commits that no other one descends from.
pub mod Laws
use deptool.Base.{
  ◌≡◌, refl, String, Bool, true, false, Option, none, some, List, [], ◌∷◌, ◌++◌, arith, Result, ok,
  err, ◌>>=◌, ◌>>◌, ◌==◌, string_ord, sort, if◌then◌else◌,
}
use deptool.BTreeMap.{keys}
use deptool.BTreeMap.Set.{collect}
use deptool.Types.{Oid}
use deptool.Error.{StoreError}
use deptool.Store.Repository.{Repository, git_err}

module _ (R : Repository) where
  open R use {State}

  -- The inner loop: whether a commit of the set descends from `oid`.
  unfoldable pub is_dominated : State → Oid → List Oid → Result StoreError Bool
  is_dominated s oid [] = ok false
  is_dominated s oid (other ∷ others) = elim (other == oid) [
    | true ↦ is_dominated s oid others
    | false ↦ do
      d ← git_err (R.graph_descendant_of s other oid)
      elim d [ true ↦ ok true | false ↦ is_dominated s oid others ]
  ]

  unfoldable pub frontier_loop :
      State → List Oid → List Oid → List Oid → Result StoreError (List Oid)
  frontier_loop s unique [] found = ok found
  frontier_loop s unique (oid ∷ oids) found = do
    d ← is_dominated s oid unique
    frontier_loop s unique oids (if d then found else found ++ (oid ∷ []))

  unfoldable pub frontier : State → List Oid → Result StoreError (List Oid)
  frontier s commits = do
    let unique = keys (collect commits)
    found ← frontier_loop s unique unique []
    ok (sort found)
