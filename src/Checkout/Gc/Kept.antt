-- ===== src/Checkout/Gc/Kept.antt =====
-- src/checkout.rs: what the removal of old version directories keeps.
use deptool.Base.{
  ◌≡◌, ◌⊎◌, arith, refl, String, Bool, true, false, ◌||◌, List, [], ◌∷◌, Result, ok, err, contains,
  ◌==◌, string_ord, if◌then◌else◌, Bool-cases, inl, inr, Result-cases,
}
use deptool.Types.{PathBuf, join}
use deptool.Store.Repository.{Repository}
use deptool.FileSystem.{FileSystem, DirEntry, IoError}
use deptool.Io.{reads, when, modify, ◌>>=◌}
use deptool.Io.Keeps.{Keeps, pure-Keeps, reads-Keeps, bind-Keeps, then-Keeps}
use deptool.Checkout.Disk.{Disk, log}
use deptool.Checkout.Gc.{kept, remove_old, gc_entries, gc_app_dir}

module _ {R : Repository} (F : FileSystem R) (apart : PathBuf → PathBuf → Bool)
    (removes : (r p : PathBuf) (s : F.State)
      → apart r p ≡ true
      → F.exists (F.remove_dir_all r s).1 p ≡ F.exists s p)
    (p : PathBuf) where
  -- Every entry is the path itself or apart from it.
  abbrev pub AreSeparate : List (Result IoError DirEntry) → Type 0
  AreSeparate [] = Unit {0}
  AreSeparate (err _ ∷ entries) = AreSeparate entries
  AreSeparate (ok e ∷ entries) =
      ((e.path == p) ≡ false → apart e.path p ≡ true) × AreSeparate entries

  abbrev present : Disk F → Bool
  present d = F.exists d.files p

  log-Keeps : (line : String) → Keeps present (log F line)
  unfolding log modify
  log-Keeps line = record { same = λ d. refl }

  remove_old-Keeps : (r : PathBuf) → apart r p ≡ true → Keeps present (remove_old F r)
  unfolding remove_old log modify
  remove_old-Keeps r h = record { same = λ d. removes r p d.files h }

  spared-Keeps :
      (keep : List PathBuf) (r : PathBuf) (link directory : Bool)
      → contains keep p ≡ true
      → ((r == p) ≡ false → apart r p ≡ true)
      → Keeps present (when (if link || contains keep r then false else directory) (remove_old F r))
  spared-Keeps keep r true directory h a = pure-Keeps present tt
  spared-Keeps keep r false false h a = spared_if (contains keep r)
    where
      spared_if : (b : Bool) → Keeps present (when (if b then false else false) (remove_old F r))
      spared_if true = pure-Keeps present tt
      spared_if false = pure-Keeps present tt
  spared-Keeps keep r false true h a = elim (Bool-cases (r == p)) [
    | inl same ↦ rw ((string_ord.beq_iff r p).0 same, h) (pure-Keeps present tt)
    | inr differ ↦ spared_if (contains keep r) (a differ)
  ]
    where
      spared_if :
          (b : Bool)
          → apart r p ≡ true
          → Keeps present (when (if b then false else true) (remove_old F r))
      spared_if true away = pure-Keeps present tt
      spared_if false away = remove_old-Keeps r away

  gc_entries-Keeps :
      (keep : List PathBuf) (entries : List (Result IoError DirEntry))
      → contains keep p ≡ true
      → AreSeparate entries
      → Keeps present (gc_entries F keep entries)
  unfolding gc_entries
  gc_entries-Keeps keep [] h a = pure-Keeps present tt
  gc_entries-Keeps keep (err e ∷ entries) h a = gc_entries-Keeps keep entries h a
  gc_entries-Keeps keep (ok e ∷ entries) h a = bind-Keeps _ _ _ (reads-Keeps _ _) λ link.
      bind-Keeps _ _ _ (reads-Keeps _ _) λ directory.
        then-Keeps _ _ _ (spared-Keeps keep e.path link directory h a.0)
          (gc_entries-Keeps keep entries h a.1)

  joined-kept :
      (app_dir : PathBuf) (files : F.State) (target : PathBuf)
      → (F.read_link files (join app_dir "current") ≡ ok target)
        ⊎ (F.read_link files (join app_dir "previous") ≡ ok target)
      → p ≡ join app_dir target
      → contains (kept F files app_dir) p ≡ true
  unfolding kept
  joined-kept app_dir files target (inl e) same =
      rw e (ground (arith, string_ord.beq_iff p (join app_dir target)))
  joined-kept app_dir files target (inr e) same =
      elim (Result-cases (F.read_link files (join app_dir "current"))) [
        | inl (other, c) ↦ rw (c, e) (ground (arith, string_ord.beq_iff p (join app_dir target)))
        | inr (x, c) ↦ rw (c, e) (ground (arith, string_ord.beq_iff p (join app_dir target)))
      ]

  -- Where `current` or `previous` of an app is a link that can be read, the path in the app's
  -- directory that it points to exists after `gc_app_dir` if and only if it did before, where
  -- removing a directory leaves the paths apart from it, and each entry of the directory is that
  -- path or apart from it.
  pub gc_app_dir-keeps :
      (app_dir : PathBuf) (d : Disk F) (target : PathBuf)
      → (F.read_link d.files (join app_dir "current") ≡ ok target)
        ⊎ (F.read_link d.files (join app_dir "previous") ≡ ok target)
      → p ≡ join app_dir target
      → ((entries : List (Result IoError DirEntry))
          → F.read_dir d.files app_dir ≡ ok entries
          → AreSeparate entries)
      → F.exists (gc_app_dir F app_dir d).1.files p ≡ F.exists d.files p
  unfolding gc_app_dir reads ◌>>=◌
  gc_app_dir-keeps app_dir d target linked same a =
      elim (Result-cases (F.read_dir d.files app_dir)) [
        | inl (entries, e) ↦ rw e (
            (gc_entries-Keeps (kept F d.files app_dir) entries
                (joined-kept app_dir d.files target linked same) (a entries e)).same
              d)
        | inr (x, e) ↦ rw e ((log-Keeps _).same d)
      ]
