-- ===== src/BTreeMap/Ext.antt =====
-- Two maps in key order with the same lookups are equal.
use deptool.Base.{◌≡◌, refl, true, [], ◌∷◌, arith, Ord, ◌==◌}
use deptool.BTreeMap.{BTreeMap, get, AllAbove, IsSorted}
use deptool.BTreeMap.Laws.{get-nil, get-cons, get-AllAbove, AllAbove-trans}

module _ {ℓ κ} {K : Type ℓ} {V : Type κ} ⦃o : Ord K⦄ where
  -- The maps answer every lookup alike.
  abbrev pub SameGet : BTreeMap K V → BTreeMap K V → Type (ℓ ⊔ κ)
  SameGet m n = (k : K) → get k m ≡ get k n

  -- A lookup of the least key of one map tells where it stands in the other.
  head_eq :
      (j k : K) (v w : V) (m n : BTreeMap K V)
      → AllAbove j m
      → AllAbove k n
      → SameGet ((j, v) ∷ m) ((k, w) ∷ n)
      → (j == k) ≡ true
  head_eq j k v w m n a b h = ground (
    arith,
    o.beq_iff j k,
    o.beq_iff k j,
    o.beq_iff j j,
    o.beq_iff k k,
    o.less_total j k,
    h j,
    h k,
    get-cons j j v m,
    get-cons k k w n,
    get-cons j k w n,
    get-cons k j v m,
    get-AllAbove j n,
    get-AllAbove k m,
    AllAbove-trans j k n,
    AllAbove-trans k j m,
  )

  tail_SameGet :
      (j k : K) (v w : V) (m n : BTreeMap K V)
      → AllAbove j m
      → AllAbove k n
      → j ≡ k
      → SameGet ((j, v) ∷ m) ((k, w) ∷ n)
      → SameGet m n
  tail_SameGet j k v w m n a b e h i = ground (
    arith,
    o.beq_iff i j,
    o.beq_iff i k,
    h i,
    get-cons i j v m,
    get-cons i k w n,
    get-AllAbove j m a,
    get-AllAbove k n b,
  )

  pub ext : (m n : BTreeMap K V) → IsSorted m → IsSorted n → SameGet m n → m ≡ n
  ext [] [] s t h = refl
  ext [] ((k, w) ∷ n) s t h =
      ground (arith, h k, get-nil {V = V} k, get-cons k k w n, o.beq_iff k k)
  ext ((j, v) ∷ m) [] s t h =
      ground (arith, h j, get-nil {V = V} j, get-cons j j v m, o.beq_iff j j)
  ext ((j, v) ∷ m) ((k, w) ∷ n) s t h =
      let e = (o.beq_iff j k).0 (head_eq j k v w m n s.0 t.0 h) in
      let rest = ext m n s.1 t.1 (tail_SameGet j k v w m n s.0 t.0 e h) in
      ground (arith, e, rest, h j, get-cons j j v m, get-cons j k w n, o.beq_iff j j)
