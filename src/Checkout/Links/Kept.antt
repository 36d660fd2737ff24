-- ===== src/Checkout/Links/Kept.antt =====
-- src/checkout.rs: which links a reconciliation leaves alone. What the code relies on of `std::fs` is
-- a record of laws on the targets of links, for paths of which neither is reached through the other.
use deptool.Base.{
  ◌≡◌, refl, String, ◌<>◌, ℕ, zero, suc, Bool, true, false, Option, none, some, List, [], ◌∷◌,
  Result, ok, err, not, ◌==◌, string_ord, Fault, attempt, attempt-eq-ok,
}
use deptool.BTreeMap.{get, contains_key}
use deptool.Types.{PathBuf, join, ends_with_slash}
use deptool.Store.Repository.{Repository}
use deptool.FileSystem.{FileSystem, DirEntry, IoError}
use deptool.Io.{continue, lift_reads, ◌>>=◌, ◌>>◌}
use deptool.Error.{ApplyError}
use deptool.Io.Keeps.{
  Keeps, pure-Keeps, fail-Keeps, reads-Keeps, when-Keeps, bind-Keeps, then-Keeps, assert_io-Keeps,
  expect-Keeps, elim-Keeps,
}
use deptool.Checkout.Disk.{Disk, DiskIo, create_dir_all, remove_file, set_permissions, symlink}
use deptool.Checkout.Links.{
  Links, needs_update, open_levels, create_managed_dir, try_remove_dir, prune_levels,
  prune_empty_dirs, remove_link, write_link, remove_links, write_links, collect_managed_symlinks,
  reconcile_managed_symlinks,
}

module _ {R : Repository} (F : FileSystem R) where
  -- The target of the link at a path, if there is a link.
  unfoldable pub link_at : F.State → PathBuf → Option PathBuf
  link_at files path = elim (F.read_link files path) [ ok target ↦ some target | err _ ↦ none ]

  -- `DirEntry::path` is the path of the directory, a separator and the name.
  abbrev pub AreNamed : PathBuf → List (Result IoError DirEntry) → Type 0
  AreNamed dir [] = Unit {0}
  AreNamed dir (err _ ∷ entries) = AreNamed dir entries
  AreNamed dir (ok entry ∷ entries) =
      ((name : String)
        → entry.file_name ≡ some name
        → (entry.path ≡ dir <> ("/" <> name)) × (ends_with_slash entry.path ≡ false))
      × AreNamed dir entries

  -- What `std::fs` says of links.
  pub record LinkLaws (apart : PathBuf → PathBuf → Bool) : Type 0 where
    pub remove_file_apart :
        (p q : PathBuf) (s : F.State)
        → apart p q ≡ true
        → link_at (F.remove_file p s).1 q ≡ link_at s q
    pub symlink_apart :
        (target p q : PathBuf) (s : F.State)
        → apart p q ≡ true
        → link_at (F.symlink target p s).1 q ≡ link_at s q
    pub create_dir_same :
        (p q : PathBuf) (s : F.State) → link_at (F.create_dir_all p s).1 q ≡ link_at s q
    pub set_mode_same :
        (p q : PathBuf) (s : F.State) → link_at (F.set_mode_755 p s).1 q ≡ link_at s q
    pub remove_dir_same :
        (p q : PathBuf) (s : F.State) → link_at (F.remove_dir p s).1 q ≡ link_at s q
    pub remove_file_gone :
        (p : PathBuf) (s : F.State)
        → (F.remove_file p s).0 ≡ ok tt
        → link_at (F.remove_file p s).1 p ≡ none
    pub symlink_made :
        (target p : PathBuf) (s : F.State)
        → (F.symlink target p s).0 ≡ ok tt
        → link_at (F.symlink target p s).1 p ≡ some target
    pub listed :
        (s : F.State) (dir : PathBuf) (entries : List (Result IoError DirEntry))
        → ends_with_slash dir ≡ false
        → F.read_dir s dir ≡ ok entries
        → AreNamed dir entries

  -- The target of the link at a path, as a view of the disk.
  abbrev pub link_on : PathBuf → Disk F → Option PathBuf
  link_on q d = link_at d.files q

  module _ {apart : PathBuf → PathBuf → Bool} (laws : LinkLaws apart) (q : PathBuf) where
    pub create_dir_all-Keeps : (p : PathBuf) → Keeps (link_on q) (create_dir_all F p)
    unfolding create_dir_all
    create_dir_all-Keeps p = record { same = λ d. laws.create_dir_same p q d.files }

    set_permissions-Keeps : (p : PathBuf) → Keeps (link_on q) (set_permissions F p)
    unfolding set_permissions
    set_permissions-Keeps p = record { same = λ d. laws.set_mode_same p q d.files }

    try_remove_dir-Keeps : (p : PathBuf) → Keeps (link_on q) (try_remove_dir F p)
    unfolding try_remove_dir
    try_remove_dir-Keeps p = record { same = λ d. laws.remove_dir_same p q d.files }

    pub remove_file-Keeps : (p : PathBuf) → apart p q ≡ true → Keeps (link_on q) (remove_file F p)
    unfolding remove_file
    remove_file-Keeps p h = record { same = λ d. laws.remove_file_apart p q d.files h }

    pub symlink-Keeps :
        (target p : PathBuf) → apart p q ≡ true → Keeps (link_on q) (symlink F target p)
    unfolding symlink
    symlink-Keeps target p h = record { same = λ d. laws.symlink_apart target p q d.files h }

    open_levels-Keeps :
        (fuel : ℕ) (stop level : PathBuf) → Keeps (link_on q) (open_levels F fuel stop level)
    unfolding open_levels
    open_levels-Keeps zero stop level = fail-Keeps _ _
    open_levels-Keeps (suc fuel) stop level = then-Keeps _ _ _ (set_permissions-Keeps level) (
        elim-Keeps _ (level == stop) _ _ (pure-Keeps _ tt)
          (bind-Keeps _ _ _ (expect-Keeps _ _ _) λ above. open_levels-Keeps fuel stop above))

    pub create_managed_dir-Keeps :
        (stop dir : PathBuf) → Keeps (link_on q) (create_managed_dir F stop dir)
    unfolding create_managed_dir
    create_managed_dir-Keeps stop dir =
        then-Keeps _ _ _ (assert_io-Keeps _ _ _)
          (then-Keeps _ _ _ (create_dir_all-Keeps dir) (open_levels-Keeps _ stop dir))

    prune_levels-Keeps :
        (fuel : ℕ) (stop level : PathBuf) → Keeps (link_on q) (prune_levels F fuel stop level)
    unfolding prune_levels
    prune_levels-Keeps zero stop level = fail-Keeps _ _
    prune_levels-Keeps (suc fuel) stop level = elim-Keeps _ (level == stop) _ _ (pure-Keeps _ tt) (
        bind-Keeps _ _ _ (try_remove_dir-Keeps level) λ removed.
          elim-Keeps _ removed _ _
            (bind-Keeps _ _ _ (expect-Keeps _ _ _) λ above. prune_levels-Keeps fuel stop above)
            (pure-Keeps _ tt))

    pub prune_empty_dirs-Keeps :
        (stop dir : PathBuf) → Keeps (link_on q) (prune_empty_dirs F stop dir)
    unfolding prune_empty_dirs
    prune_empty_dirs-Keeps stop dir =
        then-Keeps _ _ _ (assert_io-Keeps _ _ _) (prune_levels-Keeps _ stop dir)

    pub remove_link-Keeps :
        (dir : PathBuf) (name : String)
        → apart (join dir name) q ≡ true
        → Keeps (link_on q) (remove_link F dir name)
    unfolding remove_link
    remove_link-Keeps dir name h =
        then-Keeps _ _ _ (remove_file-Keeps _ h)
          (bind-Keeps _ _ _ (expect-Keeps _ _ _) λ above. prune_empty_dirs-Keeps dir above)

    pub write_link-Keeps :
        (dir : PathBuf) (name : String) (target : PathBuf)
        → apart (join dir name) q ≡ true
        → Keeps (link_on q) (write_link F dir name target)
    unfolding write_link
    write_link-Keeps dir name target h = bind-Keeps _ _ _ (expect-Keeps _ _ _) λ above.
        then-Keeps _ _ _ (create_managed_dir-Keeps dir above) (
          bind-Keeps _ _ _ (reads-Keeps _ _) λ present.
            then-Keeps _ _ _ (when-Keeps _ present _ (remove_file-Keeps _ h))
              (symlink-Keeps target _ h))

  -- Every link of the map is apart from the path.
  abbrev pub AreApart : (PathBuf → PathBuf → Bool) → PathBuf → PathBuf → Links → Type 0
  AreApart apart dir q [] = Unit {0}
  AreApart apart dir q ((name, _) ∷ links) =
      (apart (join dir name) q ≡ true) × AreApart apart dir q links

  module _ {apart : PathBuf → PathBuf → Bool} (laws : LinkLaws apart) (q : PathBuf) where
    pub remove_links-Keeps :
        (desired : Links) (dir : PathBuf) (actual : Links)
        → AreApart apart dir q actual
        → Keeps (link_on q) (remove_links F desired dir actual)
    unfolding remove_links
    remove_links-Keeps desired dir [] h = pure-Keeps _ tt
    remove_links-Keeps desired dir ((name, target) ∷ actual) h =
        then-Keeps _ _ _
          (when-Keeps _ (not (contains_key name desired)) _ (remove_link-Keeps laws q dir name h.0))
          (remove_links-Keeps desired dir actual h.1)

    pub write_links-Keeps :
        (actual : Links) (dir : PathBuf) (desired : Links)
        → AreApart apart dir q desired
        → Keeps (link_on q) (write_links F actual dir desired)
    unfolding write_links
    write_links-Keeps actual dir [] h = pure-Keeps _ tt
    write_links-Keeps actual dir ((name, target) ∷ desired) h =
        then-Keeps _ _ _
          (when-Keeps _ (needs_update (get name actual) target) _
            (write_link-Keeps laws q dir name target h.0))
          (write_links-Keeps actual dir desired h.1)

    after_listing :
        (r : Result (Fault ApplyError) Links) (next : Links → DiskIo F (Unit {0})) (d : Disk F)
        → ((actual : Links) → r ≡ ok actual → Keeps (link_on q) (next actual))
        → link_on q (continue (r, d) next).1 ≡ link_on q d
    after_listing (ok actual) next d h = (h actual refl).same d
    after_listing (err e) next d h = refl

    pub reconcile-keeps_others :
        (desired : Links) (apps_dir dir : PathBuf) (d : Disk F)
        → ((actual : Links)
            → collect_managed_symlinks F d.files apps_dir dir ≡ ok actual
            → AreApart apart dir q actual)
        → AreApart apart dir q desired
        → link_at (reconcile_managed_symlinks F desired apps_dir dir d).1.files q
          ≡ link_at d.files q
    unfolding reconcile_managed_symlinks lift_reads ◌>>=◌
    reconcile-keeps_others desired apps_dir dir d listed h =
        after_listing (attempt (collect_managed_symlinks F d.files apps_dir dir))
          (λ actual. remove_links F desired dir actual >> write_links F actual dir desired) d
          λ actual found.
            then-Keeps _ _ _
              (remove_links-Keeps desired dir actual (listed actual (attempt-eq-ok _ found)))
              (write_links-Keeps actual dir desired h)
