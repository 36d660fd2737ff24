-- ===== src/Checkout/Links/Removed.antt =====
-- src/checkout.rs: the links that a reconciliation removes from a directory.
use deptool.Base.{
  ◌≡◌, sym, ◌∙◌, ap, subst, String, Bool, true, false, none, [], ◌∷◌, ok, not, string_ord,
  map_err-eq-ok,
}
use deptool.BTreeMap.{contains_key}
use deptool.Types.{PathBuf, join, parent}
use deptool.Store.Repository.{Repository}
use deptool.FileSystem.{FileSystem}
use deptool.Io.{when, expect, ◌>>=◌}
use deptool.Io.Keeps.{Keeps, bind-eq-ok, bind-Keeps, expect-Keeps}
use deptool.Checkout.Disk.{Disk, DiskIo, remove_file}
use deptool.Checkout.Links.{Links, prune_empty_dirs, remove_link, remove_links}
use deptool.Checkout.Links.Kept.{
  LinkLaws, link_on, AreApart, remove_links-Keeps, prune_empty_dirs-Keeps,
}

module _ {R : Repository} (F : FileSystem R) {apart : PathBuf → PathBuf → Bool}
    (laws : LinkLaws F apart) (dir : PathBuf) where
  remove_file-gone :
      (p : PathBuf) (d : Disk F)
      → (remove_file F p d).0 ≡ ok tt
      → link_on F p (remove_file F p d).1 ≡ none
  unfolding remove_file
  remove_file-gone p d h = laws.remove_file_gone p d.files (map_err-eq-ok _ _ h)

  -- No link of the map lies at the path of another one.
  abbrev pub AreMutuallyApart : Links → Type 0
  AreMutuallyApart [] = Unit {0}
  AreMutuallyApart ((name, _) ∷ links) =
      AreApart F apart dir (join dir name) links × AreMutuallyApart links

  -- The links that the map lacks are gone.
  abbrev pub AreGone : Disk F → Links → Links → Type 0
  AreGone d desired [] = Unit {0}
  AreGone d desired ((name, _) ∷ actual) =
      (contains_key name desired ≡ false → link_on F (join dir name) d ≡ none)
      × AreGone d desired actual

  remove_link-gone :
      (name : String) (d : Disk F)
      → (remove_link F dir name d).0 ≡ ok tt
      → link_on F (join dir name) (remove_link F dir name d).1 ≡ none
  unfolding remove_link
  remove_link-gone name d h =
      let p = join dir name in
      let pruned : Keeps (link_on F p)
          (expect (parent p) "a link path has a parent" >>= λ above. prune_empty_dirs F dir above) =
        bind-Keeps _ _ _ (expect-Keeps _ _ _)
          (λ above. prune_empty_dirs-Keeps F laws p dir above) in
      let (_, first, e, _) = bind-eq-ok (remove_file F p) _ d h in
      ap (λ x. link_on F p x.1) e ∙ pruned.same _ ∙ remove_file-gone p d first

  step-gone :
      (name : String) (d : Disk F) (b : Bool)
      → b ≡ true
      → (when b (remove_link F dir name) d).0 ≡ ok tt
      → link_on F (join dir name) (when b (remove_link F dir name) d).1 ≡ none
  step-gone name d true e h = remove_link-gone name d h
  step-gone name d false e h = cc

  pub remove_links-gone :
      (desired actual : Links) (d : Disk F)
      → AreMutuallyApart actual
      → (remove_links F desired dir actual d).0 ≡ ok tt
      → AreGone (remove_links F desired dir actual d).1 desired actual
  unfolding remove_links
  remove_links-gone desired [] d a h = tt
  remove_links-gone desired ((name, target) ∷ actual) d a h =
      let m = when (not (contains_key name desired)) (remove_link F dir name) in
      let (_, first, e, rest) = bind-eq-ok m (λ _. remove_links F desired dir actual) d h in
      (
        λ absent.
            ap (λ x. link_on F (join dir name) x.1) e
            ∙ (remove_links-Keeps F laws (join dir name) desired dir actual a.0).same (m d).1
            ∙ step-gone name d (not (contains_key name desired)) (ap not absent) first,
        subst (λ x. AreGone x.1 desired actual) (sym e)
            (remove_links-gone desired actual (m d).1 a.1 rest),
      )

  -- The paths of the links to be removed, apart from those of the desired links.
  abbrev pub RemovedAreApart : Links → Links → Type 0
  RemovedAreApart desired [] = Unit {0}
  RemovedAreApart desired ((name, _) ∷ actual) =
      (contains_key name desired ≡ false → AreApart F apart dir (join dir name) desired)
      × RemovedAreApart desired actual

  pub AreGone-step :
      (m : DiskIo F (Unit {0})) (d : Disk F) (desired actual : Links)
      → ((q : PathBuf) → AreApart F apart dir q desired → Keeps (link_on F q) m)
      → RemovedAreApart desired actual
      → AreGone d desired actual
      → AreGone (m d).1 desired actual
  AreGone-step m d desired [] keeps a h = tt
  AreGone-step m d desired ((name, _) ∷ actual) keeps a h = (
    λ absent. (keeps (join dir name) (a.0 absent)).same d ∙ h.0 absent,
    AreGone-step m d desired actual keeps a.1 h.1,
  )
