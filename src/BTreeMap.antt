-- ===== src/BTreeMap.antt =====
-- `std::collections::BTreeMap` as an association list in the order of the keys. Iteration follows
-- the list. `BTreeSet` is the map into the unit type, as it is in the standard library.
pub mod Laws
pub mod Ext
pub mod Set
use deptool.Base.{
  ◌≡◌, Bool, true, false, Option, none, some, List, [], ◌∷◌, map, Ord, ◌==◌, ◌<?◌, if◌then◌else◌,
}

abbrev pub BTreeMap {ℓ κ} : Type ℓ → Type κ → Type (ℓ ⊔ κ)
BTreeMap K V = List (K × V)

abbrev pub is_some {ℓ} : {A : Type ℓ} → Option A → Bool
is_some none = false
is_some (some _) = true

abbrev pub keys {ℓ κ} : {K : Type ℓ} {V : Type κ} → BTreeMap K V → List K
keys [] = []
keys ((k, v) ∷ m) = k ∷ keys m

abbrev pub values {ℓ κ} : {K : Type ℓ} {V : Type κ} → BTreeMap K V → List V
values [] = []
values ((k, v) ∷ m) = v ∷ values m

-- `iter().map(|(k, v)| (k, f(v))).collect()`
abbrev pub map_values {ℓ κ ι} :
    {K : Type ℓ} {V : Type κ} {W : Type ι} → (V → W) → BTreeMap K V → BTreeMap K W
map_values f [] = []
map_values f ((k, v) ∷ m) = (k, f v) ∷ map_values f m

-- `retain(|k, v| p(k, v))`
unfoldable pub retain {ℓ κ} :
    {K : Type ℓ} {V : Type κ} → (K → V → Bool) → BTreeMap K V → BTreeMap K V
retain p [] = []
retain p ((k, v) ∷ m) = let rest = retain p m in if p k v then (k, v) ∷ rest else rest

module _ {ℓ κ} {K : Type ℓ} {V : Type κ} ⦃o : Ord K⦄ where
  unfoldable pub get : K → BTreeMap K V → Option V
  get k [] = none
  get k ((j, w) ∷ m) = if k == j then some w else get k m

  abbrev pub contains_key : K → BTreeMap K V → Bool
  contains_key k m = is_some (get k m)

  unfoldable pub insert : K → V → BTreeMap K V → BTreeMap K V
  insert k v [] = (k, v) ∷ []
  insert k v ((j, w) ∷ m) =
      let rest = insert k v m in
      if k == j then (k, v) ∷ m else if k <? j then (k, v) ∷ (j, w) ∷ m else (j, w) ∷ rest

  -- Every key of the map lies above the given one.
  abbrev pub AllAbove : K → BTreeMap K V → Type 0
  AllAbove k [] = Unit {0}
  AllAbove k ((j, _) ∷ m) = ((k <? j) ≡ true) × AllAbove k m

  -- The invariant of the tree: the keys rise along the list, so none stands twice.
  abbrev pub IsSorted : BTreeMap K V → Type 0
  IsSorted [] = Unit {0}
  IsSorted ((k, _) ∷ m) = AllAbove k m × IsSorted m
