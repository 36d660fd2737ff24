-- ===== src/Store/Frontier/Laws.antt =====
-- src/store.rs: what `frontier` returns, where ancestry is a strict order and every commit can be read.
use mathlib.Core.List.{append-nil, append_assoc}
use deptool.Base.{
  ◌≡◌, refl, ◌∙◌, Bool, true, false, ◌&&◌, not, List, [], ◌∷◌, ◌++◌, arith, ◌⊎◌, inl, inr, ok, ◌==◌,
  string_ord, sort, contains, contains-sort, filter, contains-filter, any, Bool-cases,
}
use deptool.BTreeMap.{keys}
use deptool.BTreeMap.Set.{collect, contains-keys, contains_key-collect}
use deptool.Types.{Oid}
use deptool.Store.Repository.{Repository}
use deptool.Store.Frontier.{is_dominated, frontier_loop, frontier}

-- libgit2 answers for every two commits, and its answers are a strict order.
pub record IsAncestry (R : Repository) (s : R.State) (descends : Oid → Oid → Bool) : Type 0 where
  pub answers : (a b : Oid) → R.graph_descendant_of s a b ≡ ok (descends a b)
  pub irrefl : (a : Oid) → descends a a ≡ false
  pub trans : (a b c : Oid) → descends a b ≡ true → descends b c ≡ true → descends a c ≡ true

module _ (R : Repository) (s : R.State) (descends : Oid → Oid → Bool)
    (h : IsAncestry R s descends) where
  is_dominated_lem :
      (oid : Oid) (others : List Oid)
      → is_dominated R s oid others ≡ ok (any (λ x. descends x oid) others)
  unfolding is_dominated
  is_dominated_lem oid [] = refl
  is_dominated_lem oid (x ∷ xs) = elim (Bool-cases (x == oid)) [
    | inl e ↦
        rw (e, is_dominated)
          (is_dominated_lem oid xs
            ∙ ground (arith, string_ord.beq_iff x oid, h.irrefl oid, h.irrefl x))
    | inr e ↦
        rw (e, h.answers x oid, is_dominated)
          (elim (Bool-cases (descends x oid)) [
            | inl d ↦ rw d refl
            | inr d ↦ rw d (is_dominated_lem oid xs)
          ])
  ]

  -- The commits of a list that nothing in the set descends from.
  abbrev maximal : List Oid → List Oid → List Oid
  maximal unique = filter (λ oid. not (any (λ x. descends x oid) unique))

  frontier_loop_lem :
      (unique oids found : List Oid)
      → frontier_loop R s unique oids found ≡ ok (found ++ maximal unique oids)
  unfolding frontier_loop
  frontier_loop_lem unique [] found = rw (append-nil found)
  frontier_loop_lem unique (oid ∷ oids) found =
      rw (is_dominated_lem oid unique) (elim (Bool-cases (any (λ x. descends x oid) unique)) [
        | inl e ↦ rw e (frontier_loop_lem unique oids found)
        | inr e ↦ rw e (
            frontier_loop_lem unique oids (found ++ (oid ∷ []))
            ∙ rw (append_assoc found (oid ∷ []) (maximal unique oids)))
      ])

  -- The commit `m` is `c` or descends from it.
  abbrev pub IsAbove : Oid → Oid → Type 0
  IsAbove m c = (m ≡ c) ⊎ (descends m c ≡ true)

  -- If nothing in the list descends from `m`, then nothing does from `x`, which is above it.
  any_above :
      (m x : Oid) (xs : List Oid)
      → descends x m ≡ true
      → any (λ y. descends y m) xs ≡ false
      → any (λ y. descends y x) xs ≡ false
  any_above m x [] d none_above = refl
  any_above m x (y ∷ ys) d none_above = ground (arith, h.trans y x m, any_above m x ys d)

  -- Above each commit stands one of the list that nothing in the list descends from.
  maximal-IsAbove :
      (c : Oid) (xs : List Oid)
      → (m : Oid) × (contains (c ∷ xs) m ≡ true)
        × IsAbove m c
        × (any (λ x. descends x m) xs ≡ false)
  maximal-IsAbove c [] = (c, ground (arith, string_ord.beq_iff c c), inl refl, refl)
  maximal-IsAbove c (x ∷ xs) =
      let (m, inside, above, top) = maximal-IsAbove c xs in
      elim (Bool-cases (descends x m)) [
        | inl d ↦ (
          x,
          ground (arith, string_ord.beq_iff x x),
          inr (ground (arith, h.trans x m c)),
          ground (arith, h.irrefl x, any_above m x xs d top),
        )
        | inr d ↦ (m, ground arith, above, ground arith)
      ]

  -- `frontier` succeeds. Its commits are those of the argument from which no other commit of the
  -- argument descends.
  pub frontier_exact :
      (commits : List Oid)
      → (r : List Oid) × (frontier R s commits ≡ ok r)
        × ((a : Oid)
            → contains r a
              ≡ (contains commits a && not (any (λ x. descends x a) (keys (collect commits)))))
  unfolding frontier
  frontier_exact commits =
      let unique = keys (collect commits) in
      (
        sort (maximal unique unique),
        rw (frontier_loop_lem unique unique []),
        λ a.
            contains-sort (maximal unique unique) a
            ∙ (contains-filter (λ oid. not (any (λ x. descends x oid) unique)) unique a
                ∙ rw (contains-keys (collect commits) a, contains_key-collect commits a)),
      )

  contains_unique :
      (commits : List Oid) (a : Oid) → contains (keys (collect commits)) a ≡ contains commits a
  contains_unique commits a = contains-keys (collect commits) a ∙ contains_key-collect commits a

  any-false :
      (a b : Oid) (xs : List Oid)
      → any (λ x. descends x a) xs ≡ false
      → contains xs b ≡ true
      → descends b a ≡ false
  any-false a b [] e m = cc
  any-false a b (x ∷ xs) e m = ground (arith, string_ord.beq_iff b x, any-false a b xs)

  -- The result of `frontier` as the parents of a deploy commit: it is taken from the argument, no
  -- commit of it descends from another, and every commit of the argument is one of them or an
  -- ancestor of one of them.
  abbrev pub IsFrontier : List Oid → List Oid → Type 0
  IsFrontier commits r =
      ((a : Oid) → contains r a ≡ true → contains commits a ≡ true)
      × ((a b : Oid) → contains r a ≡ true → contains r b ≡ true → descends b a ≡ false)
      × ((c : Oid) → contains commits c ≡ true → (m : Oid) × (contains r m ≡ true) × IsAbove m c)

  frontier_covers :
      (commits r : List Oid)
      → ((a : Oid)
          → contains r a
            ≡ (contains commits a && not (any (λ x. descends x a) (keys (collect commits)))))
      → (c : Oid) → contains commits c ≡ true
      → (m : Oid) × (contains r m ≡ true) × IsAbove m c
  frontier_covers commits r exact c inside =
      let (m, listed, above, top) = maximal-IsAbove c (keys (collect commits)) in
      (m, ground (arith, exact m, contains_unique commits m, string_ord.beq_iff m c), above)

  -- Where libgit2 answers for every two commits and ancestry is a strict order, `frontier` returns
  -- commits of the list, none of which descends from another, and each commit of the list is one
  -- of them or an ancestor of one.
  pub frontier-IsFrontier :
      (commits : List Oid) → (r : List Oid) × (frontier R s commits ≡ ok r) × IsFrontier commits r
  frontier-IsFrontier commits =
      let (r, returns, exact) = frontier_exact commits in
      (
        r,
        returns,
        (
          λ a m. ground (arith, exact a),
          λ a b m n.
              any-false a b (keys (collect commits)) (ground (arith, exact a))
                (contains_unique commits b ∙ ground (arith, exact b)),
          frontier_covers commits r exact,
        ),
      )
