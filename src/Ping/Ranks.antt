-- ===== src/Ping/Ranks.antt =====
-- src/ping.rs: how many samples lie below the one at a position of the sorted samples.
use deptool.Base.{
  ◌≡◌, refl, ℕ, zero, suc, ◌≤◌, ◌<◌, Bool, none, some, List, [], ◌∷◌, ltb, leb, if◌then◌else◌,
  length, sort, insert_sorted, nat_ord, arith,
}
use deptool.Ping.{get_elem?}

-- How many of the samples pass a test.
abbrev pub count : (ℕ → Bool) → List ℕ → ℕ
count p [] = 0
count p (x ∷ xs) = if p x then suc (count p xs) else count p xs

count-insert_sorted :
    (p : ℕ → Bool) (a : ℕ) (xs : List ℕ) → count p (insert_sorted a xs) ≡ count p (a ∷ xs)
unfolding insert_sorted
count-insert_sorted p a [] = refl
count-insert_sorted p a (x ∷ xs) = ground (arith, count-insert_sorted p a xs)

-- Sorting keeps every count.
pub count-sort : (p : ℕ → Bool) (xs : List ℕ) → count p (sort xs) ≡ count p xs
unfolding sort
count-sort p [] = refl
count-sort p (x ∷ xs) = ground (arith, count-insert_sorted p x (sort xs), count-sort p xs)

abbrev pub AtLeast : ℕ → List ℕ → Type 0
AtLeast a [] = Unit {0}
AtLeast a (x ∷ xs) = (a ≤ x) × AtLeast a xs

abbrev pub IsRising : List ℕ → Type 0
IsRising [] = Unit {0}
IsRising (x ∷ xs) = AtLeast x xs × IsRising xs

AtLeast-mono : (a b : ℕ) (xs : List ℕ) → a ≤ b → AtLeast b xs → AtLeast a xs
AtLeast-mono a b [] h k = tt
AtLeast-mono a b (x ∷ xs) h k = (omega arith, AtLeast-mono a b xs h k.1)

AtLeast-insert_sorted :
    (a b : ℕ) (xs : List ℕ) → a ≤ b → AtLeast a xs → AtLeast a (insert_sorted b xs)
unfolding insert_sorted
AtLeast-insert_sorted a b [] h k = (h, tt)
AtLeast-insert_sorted a b (x ∷ xs) h k = ground (arith, AtLeast-insert_sorted a b xs h k.1)

insert_sorted-IsRising : (a : ℕ) (xs : List ℕ) → IsRising xs → IsRising (insert_sorted a xs)
unfolding insert_sorted
insert_sorted-IsRising a [] h = (tt, tt)
insert_sorted-IsRising a (x ∷ xs) h =
    ground
      (arith, insert_sorted-IsRising a xs h.1, AtLeast-insert_sorted x a xs, AtLeast-mono a x xs)

pub sort-IsRising : (xs : List ℕ) → IsRising (sort xs)
unfolding sort
sort-IsRising [] = tt
sort-IsRising (x ∷ xs) = insert_sorted-IsRising x (sort xs) (sort-IsRising xs)

abbrev pub at_most : ℕ → List ℕ → ℕ
at_most v = count (λ x. leb x v)

abbrev pub below : ℕ → List ℕ → ℕ
below v = count (λ x. ltb x v)

AtLeast-get_elem? : (a : ℕ) (xs : List ℕ) (i v : ℕ) → AtLeast a xs → get_elem? xs i ≡ some v → a ≤ v
unfolding get_elem?
AtLeast-get_elem? a [] i v h e = cc
AtLeast-get_elem? a (x ∷ xs) zero v h e = ground arith
AtLeast-get_elem? a (x ∷ xs) (suc i) v h e = AtLeast-get_elem? a xs i v h.1 e

AtLeast-below : (a : ℕ) (xs : List ℕ) → AtLeast a xs → below a xs ≡ 0
AtLeast-below a [] h = refl
AtLeast-below a (x ∷ xs) h = ground (arith, AtLeast-below a xs h.1)

-- The sample at a position, and all before it, are at most that sample.
pub at_most-get_elem? :
    (xs : List ℕ) (i v : ℕ) → IsRising xs → get_elem? xs i ≡ some v → i < at_most v xs
unfolding get_elem?
at_most-get_elem? [] i v h e = cc
at_most-get_elem? (x ∷ xs) zero v h e = ground arith
at_most-get_elem? (x ∷ xs) (suc i) v h e =
    ground (arith, AtLeast-get_elem? x xs i v h.0 e, at_most-get_elem? xs i v h.1 e)

-- Only samples before a position are below the sample there.
pub below-get_elem? :
    (xs : List ℕ) (i v : ℕ) → IsRising xs → get_elem? xs i ≡ some v → below v xs ≤ i
unfolding get_elem?
below-get_elem? [] i v h e = cc
below-get_elem? (x ∷ xs) zero v h e = ground (arith, AtLeast-below x xs h.0)
below-get_elem? (x ∷ xs) (suc i) v h e = ground (arith, below-get_elem? xs i v h.1 e)

pub get_elem?-lt : (xs : List ℕ) (i : ℕ) → i < length xs → (v : ℕ) × (get_elem? xs i ≡ some v)
unfolding get_elem?
get_elem?-lt [] i h = absurd (omega arith)
get_elem?-lt (x ∷ xs) zero h = (x, refl)
get_elem?-lt (x ∷ xs) (suc i) h = get_elem?-lt xs i (omega arith)

pub get_elem?-nil : (i : ℕ) → get_elem? [] i ≡ none
unfolding get_elem?
get_elem?-nil i = refl
