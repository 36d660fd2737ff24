-- ===== src/BTreeMap/Set.antt =====
-- `std::collections::BTreeSet`: the map into the unit type.
use deptool.Base.{◌≡◌, not, List, [], ◌∷◌, arith, Ord, contains, filter}
use deptool.BTreeMap.{BTreeMap, insert, keys, contains_key, IsSorted}
use deptool.BTreeMap.Laws.{get-nil, get-cons, get-insert, insert-IsSorted}

abbrev pub BTreeSet {ℓ} : Type ℓ → Type ℓ
BTreeSet K = BTreeMap K (Unit {0})

module _ {ℓ} {K : Type ℓ} ⦃o : Ord K⦄ where
  abbrev pub add : K → BTreeSet K → BTreeSet K
  add k s = insert k tt s

  -- `into_iter().collect::<BTreeSet<_>>()`
  unfoldable pub collect : List K → BTreeSet K
  collect [] = []
  collect (k ∷ ks) = add k (collect ks)

  -- `self.difference(other)`, in the order of the keys.
  unfoldable pub difference : BTreeSet K → BTreeSet K → List K
  difference s t = filter (λ k. not (contains_key k t)) (keys s)

  pub contains-keys {κ} :
      {V : Type κ} (m : BTreeMap K V) (k : K) → contains (keys m) k ≡ contains_key k m
  contains-keys {V} [] k = ground (arith, get-nil {V = V} k)
  contains-keys {V} ((j, v) ∷ m) k = ground (arith, get-cons k j v m, contains-keys m k)

  pub contains_key-collect : (ks : List K) (k : K) → contains_key k (collect ks) ≡ contains ks k
  unfolding collect
  contains_key-collect [] k = ground (arith, get-nil {V = Unit {0}} k)
  contains_key-collect (j ∷ ks) k =
      ground (arith, get-insert k j tt (collect ks), contains_key-collect ks k)

  pub collect-IsSorted : (ks : List K) → IsSorted (collect ks)
  unfolding collect
  collect-IsSorted [] = tt
  collect-IsSorted (k ∷ ks) = insert-IsSorted k tt (collect ks) (collect-IsSorted ks)
