-- ===== src/Plan/Symlinks/Relink.antt =====
-- src/plan.rs: a set of links after the changes of `diff_symlinks` are carried out.
use deptool.Base.{
  ◌≡◌, refl, ◌∙◌, ◌&&◌, Option, none, some, List, [], ◌∷◌, arith, not, Ord, ◌==◌, if◌then◌else◌,
  contains, contains-filter,
}
use deptool.BTreeMap.{BTreeMap, get, insert, retain, contains_key, keys, is_some, IsSorted}
use deptool.BTreeMap.Laws.{
  get-nil, get-cons, get-insert, get-AllAbove, insert-IsSorted, get-retain, retain-IsSorted,
}
use deptool.BTreeMap.Ext.{ext}
use deptool.BTreeMap.Set.{contains-keys}
use deptool.Plan.Changes.{SymlinkChanges}
use deptool.Plan.Diff.{diff_symlinks}
use deptool.Plan.Symlinks.{is_new, is_moved, diff_symlinks_lem}

module _ {T : Type 0} ⦃o : Ord T⦄ where
  -- What the changes make of a set of links, in the order in which the host carries them out.
  pub remove_all : List T → BTreeMap T T → BTreeMap T T
  remove_all [] links = links
  remove_all (l ∷ ls) links = remove_all ls (retain (λ k _. not (k == l)) links)

  pub insert_all : List (T × T) → BTreeMap T T → BTreeMap T T
  insert_all [] links = links
  insert_all ((l, s) ∷ ls) links = insert_all ls (insert l s links)

  pub relink : SymlinkChanges T → BTreeMap T T → BTreeMap T T
  unfolding remove_all insert_all
  relink c links = insert_all c.create (insert_all c.change (remove_all c.remove links))

  remove_all-IsSorted : (ls : List T) (m : BTreeMap T T) → IsSorted m → IsSorted (remove_all ls m)
  unfolding remove_all
  remove_all-IsSorted [] m s = s
  remove_all-IsSorted (l ∷ ls) m s = remove_all-IsSorted ls _ (retain-IsSorted _ m s)

  insert_all-IsSorted :
      (ls : List (T × T)) (m : BTreeMap T T) → IsSorted m → IsSorted (insert_all ls m)
  unfolding insert_all
  insert_all-IsSorted [] m s = s
  insert_all-IsSorted ((l, v) ∷ ls) m s = insert_all-IsSorted ls _ (insert-IsSorted l v m s)

  get-remove_all :
      (k : T) (ls : List T) (m : BTreeMap T T)
      → IsSorted m
      → get k (remove_all ls m) ≡ (if contains ls k then none else get k m)
  unfolding remove_all
  get-remove_all k [] m s = refl
  get-remove_all k (l ∷ ls) m s =
      get-remove_all k ls (retain (λ k _. not (k == l)) m) (retain-IsSorted _ m s)
      ∙ ground (arith, get-retain (λ k _. not (k == l)) k m s)

  abbrev or_before : Option T → Option T → Option T
  or_before none before = before
  or_before (some v) before = some v

  get-insert_all :
      (k : T) (ls : BTreeMap T T) (m : BTreeMap T T)
      → IsSorted ls
      → get k (insert_all ls m) ≡ or_before (get k ls) (get k m)
  unfolding insert_all
  get-insert_all k [] m s = rw (get-nil {V = T} k) refl
  get-insert_all k ((l, v) ∷ ls) m s =
      let rest = get-insert_all k ls (insert l v m) s.1 in
      ground
        (arith, rest, o.beq_iff k l, get-cons k l v ls, get-AllAbove l ls s.0, get-insert k l v m)

  relink-IsSorted : (c : SymlinkChanges T) (m : BTreeMap T T) → IsSorted m → IsSorted (relink c m)
  unfolding relink
  relink-IsSorted c m s =
      insert_all-IsSorted c.create _
        (insert_all-IsSorted c.change _ (remove_all-IsSorted c.remove m s))

  get-relink :
      (k : T) (c : SymlinkChanges T) (m : BTreeMap T T)
      → IsSorted c.create
      → IsSorted c.change
      → IsSorted m
      → get k (relink c m)
        ≡ or_before
            (get k c.create)
            (or_before (get k c.change) (if contains c.remove k then none else get k m))
  unfolding relink
  get-relink k c m s t u = ground (
    arith,
    get-insert_all k c.create (insert_all c.change (remove_all c.remove m)) s,
    get-insert_all k c.change (remove_all c.remove m) t,
    get-remove_all k c.remove m u,
  )

  -- The six cases of one link, absent or present before and after.
  relinked :
      (before after : Option T)
      → or_before
          (elim after [ none ↦ none | some s ↦ if is_new before then some s else none ])
          (or_before
            (elim after [ none ↦ none | some s ↦ if is_moved before s then some s else none ])
            (if is_some before && not (is_some after) then none else before))
        ≡ after
  relinked none none = refl
  relinked none (some s) = refl
  relinked (some b) none = refl
  relinked (some b) (some s) = ground (arith, o.beq_iff b s)

  -- For maps in key order, removing, changing and creating the links that `diff_symlinks` lists
  -- turns the previous links into exactly the target links.
  pub relink-diff_symlinks :
      (previous target : BTreeMap T T)
      → IsSorted previous
      → IsSorted target
      → relink (diff_symlinks previous target) previous ≡ target
  relink-diff_symlinks previous target s t = rw diff_symlinks_lem (
      ext _ target (relink-IsSorted _ previous s) t λ k.
        get-relink k _ previous (retain-IsSorted _ target t) (retain-IsSorted _ target t) s
        ∙ rw
            (
              get-retain (λ l _. is_new (get l previous)) k target t,
              get-retain (λ l s. is_moved (get l previous) s) k target t,
              contains-filter (λ l. not (contains_key l target)) (keys previous) k,
              contains-keys previous k,
            )
            (relinked (get k previous) (get k target)))
