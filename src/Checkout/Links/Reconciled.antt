-- ===== src/Checkout/Links/Reconciled.antt =====
-- src/checkout.rs: what a successful reconciliation of a directory leaves in it.
use text.Mathlib.Text.{starts_with}
use deptool.Base.{
  ◌≡◌, refl, sym, ◌∙◌, ap, subst, String, ◌<>◌, Bool, true, false, Option, none, some, [], ◌∷◌, ok,
  attempt, not, ◌==◌, string_ord, arith, map_err-eq-ok, attempt-eq-ok,
}
use deptool.BTreeMap.{get, contains_key}
use deptool.Types.{PathBuf, join, parent, ends_with_slash}
use deptool.Store.Repository.{Repository}
use deptool.FileSystem.{FileSystem}
use deptool.Io.{pure, reads, when, expect, lift_reads}
use deptool.Io.Keeps.{Keeps, bind-eq-ok, when-Keeps}
use deptool.Checkout.Disk.{Disk, DiskIo, remove_file, symlink}
use deptool.Checkout.Links.{
  Links, needs_update, collect_managed_symlinks, create_managed_dir, remove_link, write_link,
  remove_links, write_links, reconcile_managed_symlinks,
}
use deptool.Checkout.Links.Kept.{
  LinkLaws, link_at, link_on, AreApart, remove_link-Keeps, write_link-Keeps, write_links-Keeps,
}
use deptool.Checkout.Links.Removed.{
  AreMutuallyApart, RemovedAreApart, AreGone, AreGone-step, remove_links-gone,
}
use deptool.Checkout.Links.Found.{AreOnDisk, collect_managed_symlinks-AreOnDisk}

module _ {R : Repository} (F : FileSystem R) {apart : PathBuf → PathBuf → Bool}
    (laws : LinkLaws F apart) (symmetric : (p q : PathBuf) → apart p q ≡ apart q p)
    (dir : PathBuf) where
  symlink-made :
      (target p : PathBuf) (d : Disk F)
      → (symlink F target p d).0 ≡ ok tt
      → link_on F p (symlink F target p d).1 ≡ some target
  unfolding symlink
  symlink-made target p d h = laws.symlink_made target p d.files (map_err-eq-ok _ _ h)

  write_link-made :
      (name : String) (target : PathBuf) (d : Disk F)
      → (write_link F dir name target d).0 ≡ ok tt
      → link_on F (join dir name) (write_link F dir name target d).1 ≡ some target
  unfolding write_link
  write_link-made name target d h =
      let p = join dir name in
      let (above, _, e1, h1) = bind-eq-ok (expect (parent p) _) _ d h in
      let (_, _, e2, h2) = bind-eq-ok (create_managed_dir F dir above) _ _ h1 in
      let (present, _, e3, h3) = bind-eq-ok (reads _) _ _ h2 in
      let (_, _, e4, h4) = bind-eq-ok (when present (remove_file F p)) _ _ h3 in
      rw (e1 ∙ e2 ∙ e3 ∙ e4) (symlink-made target p _ h4)

  -- The link of each entry, as the disk has it.
  abbrev pub AreMade : Disk F → Links → Type 0
  AreMade d [] = Unit {0}
  AreMade d ((name, target) ∷ links) = (link_on F (join dir name) d ≡ some target) × AreMade d links

  -- What the listing says of the entries is what the disk has.
  abbrev IsKnown : Disk F → Links → Links → Type 0
  IsKnown d actual [] = Unit {0}
  IsKnown d actual ((name, target) ∷ links) =
      (get name actual ≡ some target → link_on F (join dir name) d ≡ some target)
      × IsKnown d actual links

  IsKnown-step :
      (m : DiskIo F (Unit {0})) (p : PathBuf) (d : Disk F) (actual links : Links)
      → ((q : PathBuf) → apart p q ≡ true → Keeps (link_on F q) m)
      → AreApart F apart dir p links
      → IsKnown d actual links
      → IsKnown (m d).1 actual links
  IsKnown-step m p d actual [] keeps a h = tt
  IsKnown-step m p d actual ((name, target) ∷ links) keeps a h = (
    λ found. (keeps (join dir name) (symmetric _ _ ∙ a.0)).same d ∙ h.0 found,
    IsKnown-step m p d actual links keeps a.1 h.1,
  )

  known_target :
      (found : Option PathBuf) (target : PathBuf)
      → needs_update found target ≡ false
      → found ≡ some target
  known_target none target h = cc
  known_target (some t) target h = ground (arith, string_ord.beq_iff t target)

  step-made :
      (actual : Links) (name : String) (target : PathBuf) (d : Disk F) (b : Bool)
      → needs_update (get name actual) target ≡ b
      → (get name actual ≡ some target → link_on F (join dir name) d ≡ some target)
      → (when b (write_link F dir name target) d).0 ≡ ok tt
      → link_on F (join dir name) (when b (write_link F dir name target) d).1 ≡ some target
  unfolding pure
  step-made actual name target d true e known h = write_link-made name target d h
  step-made actual name target d false e known h = known (known_target _ target e)

  write_links-made :
      (actual desired : Links) (d : Disk F)
      → AreMutuallyApart F laws dir desired
      → IsKnown d actual desired
      → (write_links F actual dir desired d).0 ≡ ok tt
      → AreMade (write_links F actual dir desired d).1 desired
  unfolding write_links
  write_links-made actual [] d a k h = tt
  write_links-made actual ((name, target) ∷ desired) d a k h =
      let m = when (needs_update (get name actual) target) (write_link F dir name target) in
      let (_, first, e, rest) = bind-eq-ok m (λ _. write_links F actual dir desired) d h in
      (
        ap (λ x. link_on F (join dir name) x.1) e
            ∙ (write_links-Keeps F laws (join dir name) actual dir desired a.0).same (m d).1
            ∙ step-made actual name target d _ refl k.0 first,
        subst (λ x. AreMade x.1 desired) (sym e)
            (write_links-made actual desired (m d).1 a.1
              (IsKnown-step m (join dir name) d actual desired
                (λ q x. when-Keeps _ _ _ (write_link-Keeps F laws q dir name target x)) a.0 k.1)
              rest),
      )

  not-eq-true : (b : Bool) → not b ≡ true → b ≡ false
  not-eq-true true h = cc
  not-eq-true false h = refl

  step-IsKnown :
      (name : String) (d : Disk F) (listing desired : Links) (b : Bool)
      → (b ≡ true → AreApart F apart dir (join dir name) desired)
      → IsKnown d listing desired
      → IsKnown (when b (remove_link F dir name) d).1 listing desired
  unfolding pure
  step-IsKnown name d listing desired true a k =
      IsKnown-step (remove_link F dir name) (join dir name) d listing desired
        (λ q x. remove_link-Keeps F laws q dir name x) (a refl) k
  step-IsKnown name d listing desired false a k = k

  remove_links-IsKnown :
      (listing desired actual : Links) (d : Disk F)
      → RemovedAreApart F laws dir desired actual
      → IsKnown d listing desired
      → (remove_links F desired dir actual d).0 ≡ ok tt
      → IsKnown (remove_links F desired dir actual d).1 listing desired
  unfolding remove_links pure
  remove_links-IsKnown listing desired [] d a k h = k
  remove_links-IsKnown listing desired ((name, target) ∷ actual) d a k h =
      let m = when (not (contains_key name desired)) (remove_link F dir name) in
      let (_, first, e, rest) = bind-eq-ok m (λ _. remove_links F desired dir actual) d h in
      subst (λ x. IsKnown x.1 listing desired) (sym e)
        (remove_links-IsKnown listing desired actual (m d).1 a.1
          (step-IsKnown name d listing desired (not (contains_key name desired))
            (λ absent. a.0 (not-eq-true _ absent)) k)
          rest)

  -- The names are relative.
  abbrev pub AreRelative : Links → Type 0
  AreRelative [] = Unit {0}
  AreRelative ((name, _) ∷ links) = (starts_with name "/" ≡ false) × AreRelative links

  module _ (plain : ends_with_slash dir ≡ false) (named : (dir == "") ≡ false) where
    join-relative :
        (name : String) → starts_with name "/" ≡ false → join dir name ≡ dir <> ("/" <> name)
    unfolding join
    join-relative name relative = ground arith

    AreOnDisk-IsKnown :
        (d : Disk F) (apps_dir : PathBuf) (actual desired : Links)
        → AreRelative desired
        → AreOnDisk F d.files apps_dir dir actual
        → IsKnown d actual desired
    AreOnDisk-IsKnown d apps_dir actual [] r h = tt
    AreOnDisk-IsKnown d apps_dir actual ((name, target) ∷ desired) r h = (
      λ found. ap (link_at F d.files) (join-relative name r.0) ∙ h name target found,
      AreOnDisk-IsKnown d apps_dir actual desired r.1 h,
    )

    -- Let a directory and relative names of desired links be given, the desired links apart from
    -- each other, and the links that are listed in the directory apart from each other and, where
    -- they are not desired, from the desired ones. If `reconcile_managed_symlinks` succeeds, under
    -- the laws of `std::fs` on links, then the listing succeeded, each desired link points to its
    -- target, and each listed link that is not desired is gone.
    pub reconcile-IsReconciled :
        (desired : Links) (apps_dir : PathBuf) (d : Disk F)
        → AreRelative desired
        → AreMutuallyApart F laws dir desired
        → ((actual : Links)
            → collect_managed_symlinks F d.files apps_dir dir ≡ ok actual
            → AreMutuallyApart F laws dir actual × RemovedAreApart F laws dir desired actual)
        → (reconcile_managed_symlinks F desired apps_dir dir d).0 ≡ ok tt
        → (actual : Links) × (collect_managed_symlinks F d.files apps_dir dir ≡ ok actual)
          × AreMade (reconcile_managed_symlinks F desired apps_dir dir d).1 desired
          × AreGone F laws dir
              (reconcile_managed_symlinks F desired apps_dir dir d).1
              desired
              actual
    unfolding reconcile_managed_symlinks lift_reads
    reconcile-IsReconciled desired apps_dir d r a listed h =
        let (actual, first, e1, h1) =
          bind-eq-ok (lift_reads (λ x. attempt (collect_managed_symlinks F x.files apps_dir dir))) _
            d h in
        let collected = attempt-eq-ok _ first in
        let (_, removed, e2, h2) =
          bind-eq-ok (remove_links F desired dir actual) (λ _. write_links F actual dir desired) d
            h1 in
        let d' : Disk F = (remove_links F desired dir actual d).1 in
        (
          actual,
          collected,
          subst (λ x. AreMade x.1 desired) (sym (e1 ∙ e2))
              (write_links-made actual desired d' a
                (remove_links-IsKnown actual desired actual d (listed actual collected).1
                  (AreOnDisk-IsKnown d apps_dir actual desired r (
                    collect_managed_symlinks-AreOnDisk F d.files apps_dir dir laws plain collected))
                  removed)
                h2),
          subst (λ x. AreGone F laws dir x.1 desired actual) (sym (e1 ∙ e2))
              (AreGone-step F laws dir (write_links F actual dir desired) d' desired actual
                (λ q x. write_links-Keeps F laws q actual dir desired x) (listed actual collected).1
                (remove_links-gone F laws dir desired actual d (listed actual collected).0
                  removed)),
        )
