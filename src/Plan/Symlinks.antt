-- ===== src/Plan/Symlinks.antt =====
-- src/plan.rs: which links `diff_symlinks` creates, changes and removes.
pub mod Relink
use mathlib.Core.List.{append-nil, append_assoc}
use deptool.Base.{
  ◌≡◌, refl, sym, ◌∙◌, String, Bool, true, false, ◌&&◌, Option, none, some, List, [], ◌∷◌, ◌++◌,
  arith, not, Ord, ◌==◌, if◌then◌else◌, Bool-cases, Option-cases, inl, inr, filter, contains,
  contains-filter,
}
use deptool.BTreeMap.{BTreeMap, get, insert, retain, contains_key, keys, is_some, IsSorted}
use deptool.BTreeMap.Laws.{
  get-nil, get-cons, get-insert, get-AllAbove, insert-IsSorted, get-retain, retain-IsSorted,
}
use deptool.BTreeMap.Ext.{ext}
use deptool.BTreeMap.Set.{contains-keys}
use deptool.Plan.Changes.{SymlinkChanges, no_symlink_changes}
use deptool.Plan.Diff.{diff_symlinks, links_loop, unlinks_loop}

module _ {T : Type 0} ⦃o : Ord T⦄ where
  -- The link is new, or its source differs from the previous one.
  abbrev pub is_new : Option T → Bool
  is_new none = true
  is_new (some s) = false

  abbrev pub is_moved : Option T → T → Bool
  is_moved none source = false
  is_moved (some s) source = not (s == source)

  links_loop_lem :
      (previous target : BTreeMap T T) (c : SymlinkChanges T)
      → links_loop previous target c ≡ record c {
        create = c.create ++ retain (λ l _. is_new (get l previous)) target;
        change = c.change ++ retain (λ l s. is_moved (get l previous) s) target;
      }
  unfolding links_loop retain
  links_loop_lem previous [] c = ground (arith, append-nil c.create, append-nil c.change)
  links_loop_lem previous ((l, s) ∷ target) c = elim (Option-cases (get l previous)) [
    | inl e ↦
        rw (e, links_loop, retain)
          (links_loop_lem previous target _
            ∙ ground (
              arith,
              append_assoc c.create ((l, s) ∷ []) (retain (λ l _. is_new (get l previous)) target),
            ))
    | inr (old, e) ↦
        rw (e, links_loop, retain)
          (elim (Bool-cases (old == s)) [
            | inl same ↦ rw same (links_loop_lem previous target c)
            | inr differ ↦ rw differ (
                links_loop_lem previous target _
                ∙ ground (
                  arith,
                  append_assoc c.change ((l, s) ∷ [])
                      (retain (λ l s. is_moved (get l previous) s) target),
                ))
          ])
  ]

  unlinks_loop_lem :
      (target : BTreeMap T T) (links : List T) (c : SymlinkChanges T)
      → unlinks_loop target links c
        ≡ record c { remove = c.remove ++ filter (λ l. not (contains_key l target)) links }
  unfolding unlinks_loop
  unlinks_loop_lem target [] c = ground (arith, append-nil c.remove)
  unlinks_loop_lem target (l ∷ links) c = elim (Bool-cases (contains_key l target)) [
    | inl e ↦ rw e (unlinks_loop_lem target links c)
    | inr e ↦ rw e (
        unlinks_loop_lem target links _
        ∙ ground (
          arith,
          append_assoc c.remove (l ∷ []) (filter (λ l. not (contains_key l target)) links),
        ))
  ]

  -- In the order of the maps, a target link that the previous set lacks is created, one that has
  -- another source there is changed, and a previous link that the target lacks is removed.
  pub diff_symlinks_lem :
      (previous target : BTreeMap T T)
      → diff_symlinks previous target ≡ record {
        create = retain (λ l _. is_new (get l previous)) target;
        remove = filter (λ l. not (contains_key l target)) (keys previous);
        change = retain (λ l s. is_moved (get l previous) s) target;
      }
  unfolding diff_symlinks
  diff_symlinks_lem previous target =
      unlinks_loop_lem target (keys previous) _
      ∙ ground (arith, links_loop_lem previous target no_symlink_changes)
