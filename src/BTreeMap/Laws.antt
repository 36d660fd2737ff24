-- ===== src/BTreeMap/Laws.antt =====
-- The map laws in `if` form, and that the operations keep the order of the keys.
use deptool.Base.{◌≡◌, refl, Bool, true, none, some, [], ◌∷◌, arith, Ord, ◌==◌, ◌<?◌, if◌then◌else◌}
use deptool.BTreeMap.{BTreeMap, get, insert, retain, AllAbove, IsSorted}

module _ {ℓ κ} {K : Type ℓ} {V : Type κ} ⦃o : Ord K⦄ where
  pub get-nil : (k : K) → get {V = V} k [] ≡ none
  unfolding get
  get-nil k = refl

  pub get-cons :
      (j k : K) (v : V) (m : BTreeMap K V)
      → get j ((k, v) ∷ m) ≡ (if j == k then some v else get j m)
  unfolding get
  get-cons j k v m = refl

  pub get-insert :
      (j k : K) (v : V) (m : BTreeMap K V)
      → get j (insert k v m) ≡ (if j == k then some v else get j m)
  unfolding get insert
  get-insert j k v [] = refl
  get-insert j k v ((i, w) ∷ m) =
      ground (arith, o.beq_iff j k, o.beq_iff k i, o.beq_iff j i, get-insert j k v m)

  pub AllAbove-trans : (i k : K) (m : BTreeMap K V) → (i <? k) ≡ true → AllAbove k m → AllAbove i m
  AllAbove-trans i k [] h a = tt
  AllAbove-trans i k ((j, w) ∷ m) h a = (o.less_trans i k j h a.0, AllAbove-trans i k m h a.1)

  -- A key below all others is not in the map.
  pub get-AllAbove : (k : K) (m : BTreeMap K V) → AllAbove k m → get k m ≡ none
  unfolding get
  get-AllAbove k [] a = refl
  get-AllAbove k ((j, w) ∷ m) a =
      ground (arith, o.beq_iff k j, o.less_irrefl k, get-AllAbove k m a.1)

  insert-AllAbove :
      (i k : K) (v : V) (m : BTreeMap K V)
      → (i <? k) ≡ true
      → AllAbove i m
      → AllAbove i (insert k v m)
  unfolding insert
  insert-AllAbove i k v [] h a = (h, tt)
  insert-AllAbove i k v ((j, w) ∷ m) h a = ground (arith, insert-AllAbove i k v m h a.1)

  pub insert-IsSorted : (k : K) (v : V) (m : BTreeMap K V) → IsSorted m → IsSorted (insert k v m)
  unfolding insert
  insert-IsSorted k v [] s = (tt, tt)
  insert-IsSorted k v ((j, w) ∷ m) s = ground (
    arith,
    o.beq_iff k j,
    o.less_total k j,
    AllAbove-trans k j m,
    insert-AllAbove j k v m,
    insert-IsSorted k v m s.1,
  )

  retain-AllAbove :
      (p : K → V → Bool) (k : K) (m : BTreeMap K V) → AllAbove k m → AllAbove k (retain p m)
  unfolding retain
  retain-AllAbove p k [] a = tt
  retain-AllAbove p k ((j, w) ∷ m) a = ground (arith, retain-AllAbove p k m a.1)

  pub retain-IsSorted : (p : K → V → Bool) (m : BTreeMap K V) → IsSorted m → IsSorted (retain p m)
  unfolding retain
  retain-IsSorted p [] s = tt
  retain-IsSorted p ((j, w) ∷ m) s =
      ground (arith, retain-IsSorted p m s.1, retain-AllAbove p j m s.0)

  -- The entries that pass the test stay, the others go.
  pub get-retain :
      (p : K → V → Bool) (k : K) (m : BTreeMap K V)
      → IsSorted m
      → get k (retain p m)
        ≡ elim (get k m) [ none ↦ none | some v ↦ if p k v then some v else none ]
  unfolding get retain
  get-retain p k [] s = refl
  get-retain p k ((j, w) ∷ m) s = ground (
    arith,
    o.beq_iff k j,
    get-retain p k m s.1,
    get-AllAbove k (retain p m),
    retain-AllAbove p k m,
  )
