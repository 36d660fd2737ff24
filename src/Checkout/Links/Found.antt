-- ===== src/Checkout/Links/Found.antt =====
-- src/checkout.rs: every link that `collect_managed_symlinks` lists is on the disk.
use text.Mathlib.TextLemmas.{append_assoc, append-nil}
use deptool.Base.{
  ◌≡◌, sym, ◌∙◌, ap, String, ◌<>◌, ℕ, zero, suc, Bool, false, some, List, [], ◌∷◌, Result, ok, err,
  ok-injective, >>=-eq-ok, Bool-cases, Option-cases, inl, inr, string_ord, arith,
}
use deptool.BTreeMap.{get, insert}
use deptool.BTreeMap.Laws.{get-insert, get-nil}
use deptool.Types.{PathBuf, ends_with_slash}
use deptool.Error.{ApplyError}
use deptool.Store.Repository.{Repository}
use deptool.FileSystem.{FileSystem, DirEntry, IoError}
use deptool.Checkout.Links.{
  Links, points_through_current, read_dir_if_exists, read_link, note_link, collect_entry,
  collect_entries, collect_into, collect_managed_symlinks,
}
use deptool.Checkout.Links.Kept.{link_at, AreNamed, LinkLaws}

module _ {R : Repository} (F : FileSystem R) (files : F.State) (apps_dir root : PathBuf) where
  -- Every link of the map is on the disk, at its name below the root.
  abbrev pub AreOnDisk : Links → Type 0
  AreOnDisk managed =
      (name : String) (target : PathBuf)
      → get name managed ≡ some target
      → link_at F files (root <> ("/" <> name)) ≡ some target

  -- The directory that is walked with a prefix.
  abbrev IsAt : PathBuf → String → Type 0
  IsAt dir prefix = (dir <> "/" ≡ root <> ("/" <> prefix)) × (ends_with_slash dir ≡ false)

  below :
      (dir prefix name : String)
      → dir <> "/" ≡ root <> ("/" <> prefix)
      → dir <> ("/" <> name) ≡ root <> ("/" <> (prefix <> name))
  below dir prefix name h =
      sym (append_assoc dir "/" name)
      ∙ ap (λ (s : String). s <> name) h
      ∙ append_assoc root ("/" <> prefix) name
      ∙ ap (λ (s : String). root <> s) (append_assoc "/" prefix name)

  insert-AreOnDisk :
      (name : String) (target : PathBuf) (managed : Links)
      → AreOnDisk managed
      → link_at F files (root <> ("/" <> name)) ≡ some target
      → AreOnDisk (insert name target managed)
  insert-AreOnDisk name target managed h e k t g =
      ground (arith, get-insert k name target managed, h k t, string_ord.beq_iff k name)

  note_link-AreOnDisk :
      (prefix : String) (entry : DirEntry) (target : PathBuf) (managed : Links) {result : Links}
      → ((name : String)
          → entry.file_name ≡ some name
          → link_at F files (root <> ("/" <> (prefix <> name))) ≡ some target)
      → AreOnDisk managed
      → note_link F apps_dir prefix entry target managed ≡ ok result
      → AreOnDisk result
  unfolding note_link
  note_link-AreOnDisk prefix entry target managed there h e =
      elim (Bool-cases (points_through_current apps_dir target)) [
        | inr other ↦ rw (← ok-injective (rw (other, note_link) at e)) h
        | inl ours ↦ elim (Option-cases entry.file_name) [
          | inl nameless ↦ cc
          | inr (name, named) ↦
              rw (← ok-injective (rw (ours, named, note_link) at e))
                (insert-AreOnDisk (prefix <> name) target managed h (there name named))
        ]
      ]

  -- What a walk of a subdirectory is to do.
  abbrev WalkIsSound : (PathBuf → String → Links → Result ApplyError Links) → Type 0
  WalkIsSound walk =
      (dir : PathBuf) (prefix : String) (managed result : Links)
      → IsAt dir prefix
      → AreOnDisk managed
      → walk dir prefix managed ≡ ok result
      → AreOnDisk result

  link_at-read_link :
      (path target : PathBuf)
      → read_link F files path ≡ ok target
      → link_at F files path ≡ some target
  unfolding read_link link_at
  link_at-read_link path target h = ground arith

  collect_entry-AreOnDisk :
      (walk : PathBuf → String → Links → Result ApplyError Links)
      → WalkIsSound walk
      → (dir : PathBuf) (prefix : String) (entry : DirEntry) (managed result : Links)
      → IsAt dir prefix
      → ((name : String)
          → entry.file_name ≡ some name
          → (entry.path ≡ dir <> ("/" <> name)) × (ends_with_slash entry.path ≡ false))
      → AreOnDisk managed
      → collect_entry F walk files apps_dir prefix entry managed ≡ ok result
      → AreOnDisk result
  unfolding collect_entry
  collect_entry-AreOnDisk walk sound dir prefix entry managed result here named h e =
      elim (Bool-cases (F.is_symlink files entry.path)) [
        | inl link ↦
            let (target, found, noted) =
              >>=-eq-ok (read_link F files entry.path) _ (rw (link, collect_entry) at e) in
            note_link-AreOnDisk prefix entry target managed
              (λ name there.
                ap (link_at F files) (sym (below dir prefix name here.0) ∙ sym (named name there).0)
                ∙ link_at-read_link entry.path target found)
              h noted
        | inr other ↦ elim (Bool-cases (F.is_dir files entry.path)) [
          | inr file ↦ rw (← ok-injective (rw (other, collect_entry, file) at e)) h
          | inl directory ↦ elim (Option-cases entry.file_name) [
            | inl nameless ↦
                rw (← ok-injective (rw (other, collect_entry, directory, nameless) at e)) h
            | inr (name, there) ↦
                sound entry.path (prefix <> (name <> "/")) managed result
                  (
                    ap (λ (s : String). s <> "/") (named name there).0
                        ∙ append_assoc dir ("/" <> name) "/"
                        ∙ ap (λ (s : String). dir <> s) (append_assoc "/" name "/")
                        ∙ below dir prefix (name <> "/") here.0,
                    (named name there).1,
                  )
                  h (rw (other, collect_entry, directory, there) at e)
          ]
        ]
      ]

  collect_entries-AreOnDisk :
      (walk : PathBuf → String → Links → Result ApplyError Links)
      → WalkIsSound walk
      → (dir : PathBuf) (prefix : String) (entries : List (Result IoError DirEntry))
        (managed result : Links)
      → IsAt dir prefix
      → AreNamed F dir entries
      → AreOnDisk managed
      → collect_entries F walk files apps_dir dir prefix entries managed ≡ ok result
      → AreOnDisk result
  unfolding collect_entries
  collect_entries-AreOnDisk walk sound dir prefix [] managed result here named h e =
      rw (← ok-injective e) h
  collect_entries-AreOnDisk walk sound dir prefix (err x ∷ entries) managed result here named h e =
      cc
  collect_entries-AreOnDisk walk sound dir prefix (ok entry ∷ entries) managed result here named h
        e =
      let (next, first, rest) =
        >>=-eq-ok (collect_entry F walk files apps_dir prefix entry managed) _ e in
      collect_entries-AreOnDisk walk sound dir prefix entries next result here named.1
        (collect_entry-AreOnDisk walk sound dir prefix entry managed next here named.0 h first) rest

  read_dir-listed :
      (dir : PathBuf) (entries : List (Result IoError DirEntry))
      → read_dir_if_exists F files dir ≡ ok (some entries)
      → F.read_dir files dir ≡ ok entries
  unfolding read_dir_if_exists
  read_dir-listed dir entries h = ground arith

  module _ {apart : PathBuf → PathBuf → Bool} (laws : LinkLaws F apart) where
    collect_into-IsSound : (fuel : ℕ) → WalkIsSound (collect_into F fuel files apps_dir)
    unfolding collect_into
    collect_into-IsSound zero dir prefix managed result here h e = cc
    collect_into-IsSound (suc fuel) dir prefix managed result here h e =
        let (listing, read, walked) = >>=-eq-ok (read_dir_if_exists F files dir) _ e in
        elim (Option-cases listing) [
          | inl absent ↦ rw (← ok-injective (rw absent at walked)) h
          | inr (entries, there) ↦
              collect_entries-AreOnDisk (collect_into F fuel files apps_dir)
                (collect_into-IsSound fuel) dir prefix entries managed result here
                (laws.listed files dir entries here.1
                  (read_dir-listed dir entries (read ∙ ap ok there)))
                h (rw there at walked)
        ]

    -- What the walk of the root lists is on the disk.
    pub collect_managed_symlinks-AreOnDisk :
        {actual : Links}
        → ends_with_slash root ≡ false
        → collect_managed_symlinks F files apps_dir root ≡ ok actual
        → AreOnDisk actual
    unfolding collect_managed_symlinks
    collect_managed_symlinks-AreOnDisk {actual} plain e =
        collect_into-IsSound (suc (F.depth files root)) root "" [] actual
          (ap (λ (s : String). root <> s) (sym (append-nil "/")), plain)
          (λ k t g. ground (arith, get-nil {V = PathBuf} k)) e
