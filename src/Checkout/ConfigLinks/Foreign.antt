-- ===== src/Checkout/ConfigLinks/Foreign.antt =====
-- src/checkout.rs: the links of others, which point out of the directory of the apps.
use deptool.Base.{
  ◌≡◌, refl, ◌∙◌, Bool, true, false, some, List, [], ◌∷◌, Result, ok, err, Fault, failed, ◌==◌,
  string_ord, arith, Bool-cases, inl, inr,
}
use deptool.Types.{PathBuf, starts_with_path}
use deptool.Error.{ApplyError}
use deptool.Store.Repository.{Repository}
use deptool.FileSystem.{FileSystem, IoError}
use deptool.Io.{pure, reads, lift_reads, continue, ◌>>=◌, ◌>>◌}
use deptool.Io.Keeps.{
  Keeps, pure-Keeps, fail-Keeps, reads-Keeps, lift_reads-Keeps, when-Keeps, bind-Keeps, then-Keeps,
  elim-Keeps,
}
use deptool.Plan.Changes.{SymlinkChanges}
use deptool.Checkout.Disk.{Disk, DiskIo}
use deptool.Checkout.Links.Kept.{LinkLaws, link_at, link_on, remove_file-Keeps, symlink-Keeps}
use deptool.Checkout.ConfigLinks.{
  LinkState, points_at_source, matching_file, directory, mismatch, replaced, is_already_exists,
  refusal, after_symlink, create_symlink, verify_managed, remove_managed, remove_all, change_all,
  create_all, reconcile_config_symlinks,
}

module _ {R : Repository} (F : FileSystem R) {apart : PathBuf → PathBuf → Bool}
    (laws : LinkLaws F apart) (q : PathBuf) where
  replaced-Keeps :
      (source link : PathBuf) (state : LinkState)
      → apart link q ≡ true
      → Keeps (link_on F q) (replaced F source link state)
  replaced-Keeps source link points_at_source h = pure-Keeps _ tt
  replaced-Keeps source link matching_file h =
      then-Keeps _ _ _ (remove_file-Keeps F laws q link h) (symlink-Keeps F laws q source link h)
  replaced-Keeps source link directory h = fail-Keeps _ _
  replaced-Keeps source link mismatch h = fail-Keeps _ _

  after_symlink-Keeps :
      (source link : PathBuf) (made : Result IoError (Unit {0}))
      → apart link q ≡ true
      → Keeps (link_on F q) (after_symlink F source link made)
  unfolding after_symlink
  after_symlink-Keeps source link (ok _) h = pure-Keeps _ tt
  after_symlink-Keeps source link (err e) h =
      elim-Keeps _ (is_already_exists e.kind) _ _
        (bind-Keeps _ _ _ (lift_reads-Keeps _ _) λ state. replaced-Keeps source link state h)
        (lift_reads-Keeps _ _)

  create_symlink-Keeps :
      (source link : PathBuf)
      → apart link q ≡ true
      → Keeps (link_on F q) (create_symlink F source link)
  unfolding create_symlink
  create_symlink-Keeps source link h = record {
    same = λ d.
        (after_symlink-Keeps source link (F.symlink source link d.files).0 h).same _
        ∙ laws.symlink_apart source link q d.files h;
  }

  remove_managed-Keeps :
      (apps_dir target : PathBuf)
      → apart target q ≡ true
      → Keeps (link_on F q) (remove_managed F apps_dir target)
  unfolding remove_managed
  remove_managed-Keeps apps_dir target h = bind-Keeps _ _ _ (reads-Keeps _ _) λ present.
      when-Keeps _ present _
        (bind-Keeps _ _ _ (lift_reads-Keeps _ _) λ _. remove_file-Keeps F laws q target h)

  -- Every path of the list is the given one or apart from it.
  abbrev pub AreSeparate : List PathBuf → Type 0
  AreSeparate [] = Unit {0}
  AreSeparate (p ∷ ps) = ((p == q) ≡ false → apart p q ≡ true) × AreSeparate ps

  abbrev pub targets : List (PathBuf × PathBuf) → List PathBuf
  targets [] = []
  targets ((target, _) ∷ links) = target ∷ targets links

  abbrev pub AreElsewhere : List PathBuf → Type 0
  AreElsewhere [] = Unit {0}
  AreElsewhere (p ∷ ps) = (apart p q ≡ true) × AreElsewhere ps

  create_all-Keeps :
      (links : List (PathBuf × PathBuf))
      → AreElsewhere (targets links)
      → Keeps (link_on F q) (create_all F links)
  unfolding create_all
  create_all-Keeps [] h = pure-Keeps _ tt
  create_all-Keeps ((target, source) ∷ links) h =
      then-Keeps _ _ _ (create_symlink-Keeps source target h.0) (create_all-Keeps links h.1)

  module _
      (occupied : (files : F.State) (target : PathBuf)
        → link_at F files q ≡ some target
        → F.occupied files q ≡ true)
      (apps_dir actual : PathBuf) (foreign : starts_with_path actual apps_dir ≡ false) where
    read_link_target :
        (d : Disk F) → link_on F q d ≡ some actual → F.read_link d.files q ≡ ok actual
    unfolding link_at
    read_link_target d h = ground arith

    refuses :
        (d : Disk F)
        → link_on F q d ≡ some actual
        → (e : ApplyError) × (verify_managed F d.files q apps_dir ≡ err e)
    unfolding verify_managed
    refuses d h =
        (refusal q actual apps_dir, rw (read_link_target d h, verify_managed, foreign) refl)

    -- The link is left as it is, and the removal fails.
    remove_managed-stops :
        (d : Disk F)
        → link_on F q d ≡ some actual
        → (e : Fault ApplyError) × (remove_managed F apps_dir q d ≡ (err e, d))
    unfolding remove_managed reads lift_reads ◌>>=◌
    remove_managed-stops d h =
        let (e, refused) = refuses d h in (failed e, rw (occupied d.files actual h, refused) refl)

    -- The link keeps its target through the action.
    abbrev pub IsStable : DiskIo F (Unit {0}) → Type 0
    IsStable m = (d : Disk F) → link_on F q d ≡ some actual → link_on F q (m d).1 ≡ some actual

    stable_rest :
        (r : Result (Fault ApplyError) (Unit {0})) (d : Disk F) (next : DiskIo F (Unit {0}))
        → IsStable next
        → link_on F q d ≡ some actual
        → link_on F q (continue (r, d) (λ _. next)).1 ≡ some actual
    stable_rest (ok _) d next k h = k d h
    stable_rest (err e) d next k h = h

    then-IsStable :
        (m next : DiskIo F (Unit {0})) → IsStable m → IsStable next → IsStable (m >> next)
    unfolding ◌>>=◌
    then-IsStable m next j k d h = stable_rest (m d).0 (m d).1 next k (j d h)

    -- A removal at the path of the link fails, so nothing follows it.
    guarded-IsStable :
        (target : PathBuf) (next : DiskIo F (Unit {0}))
        → ((target == q) ≡ false → apart target q ≡ true)
        → (apart target q ≡ true → IsStable next)
        → IsStable (remove_managed F apps_dir target >> next)
    unfolding ◌>>=◌
    guarded-IsStable target next away k d h = elim (Bool-cases (target == q)) [
      | inr differ ↦
          stable_rest (remove_managed F apps_dir target d).0 _ next (k (away differ))
            ((remove_managed-Keeps apps_dir target (away differ)).same d ∙ h)
      | inl same ↦ rw ((string_ord.beq_iff target q).0 same, (remove_managed-stops d h).1) h
    ]

    remove_all-IsStable : (ps : List PathBuf) → AreSeparate ps → IsStable (remove_all F apps_dir ps)
    unfolding remove_all pure
    remove_all-IsStable [] a = λ d h. h
    remove_all-IsStable (p ∷ ps) a = guarded-IsStable p _ a.0 (λ _. remove_all-IsStable ps a.1)

    change_all-IsStable :
        (links : List (PathBuf × PathBuf))
        → AreSeparate (targets links)
        → IsStable (change_all F apps_dir links)
    unfolding change_all pure
    change_all-IsStable [] a = λ d h. h
    change_all-IsStable ((target, source) ∷ links) a = guarded-IsStable target _ a.0 λ away.
        then-IsStable _ _ (λ d h. (create_symlink-Keeps source target away).same d ∙ h)
          (change_all-IsStable links a.1)

    -- A link whose target is not under the directory of the apps is as it was after
    -- `reconcile_config_symlinks`, whether that succeeds or fails, under the laws of `std::fs` on
    -- links: for paths to remove or change that are the path of the link or apart from it, and
    -- paths to create that are apart from it.
    pub reconcile-keeps_foreign :
        (changes : SymlinkChanges PathBuf) (d : Disk F)
        → AreSeparate changes.remove
        → AreSeparate (targets changes.change)
        → AreElsewhere (targets changes.create)
        → link_at F d.files q ≡ some actual
        → link_at F (reconcile_config_symlinks F apps_dir changes d).1.files q ≡ some actual
    unfolding reconcile_config_symlinks
    reconcile-keeps_foreign changes d r c n =
        then-IsStable _ _ (remove_all-IsStable changes.remove r)
          (then-IsStable _ _ (change_all-IsStable changes.change c)
            (λ x h. (create_all-Keeps changes.create n).same x ∙ h))
          d
