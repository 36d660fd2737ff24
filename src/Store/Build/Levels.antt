-- ===== src/Store/Build/Levels.antt =====
-- src/store.rs: what a level of a configuration directory puts in the tree.
use deptool.Base.{
  ◌≡◌, refl, ap, subst, String, ℕ, Bool, true, false, ◌||◌, some, List, [], ◌∷◌, ◌++◌, Result, ok,
  >>=-eq-ok, ok-injective, Bool-cases, Option-cases, inl, inr, ltb, arith,
}
use deptool.Types.{Oid, PathBuf}
use deptool.Error.{StoreError}
use deptool.Store.Repository.{Repository, git_err}
use deptool.FileSystem.{FileSystem, DirEntry}
use deptool.Store.Build.{
  Builder, tree_mode, insert_entry, is_kept, insert_if, add_directory, build_named, build_entries,
}

-- Every entry is a directory.
abbrev pub AreTrees : Builder → Type 0
AreTrees [] = Unit {0}
AreTrees ((name, oid, mode) ∷ entries) = (mode ≡ tree_mode) × AreTrees entries

AreTrees-append :
    (xs : Builder) (name : String) (oid : Oid)
    → AreTrees xs
    → AreTrees (xs ++ ((name, oid, tree_mode) ∷ []))
AreTrees-append [] name oid h = (refl, tt)
AreTrees-append ((n, o, m) ∷ xs) name oid h = (h.0, AreTrees-append xs name oid h.1)

-- Every entry is a directory or a regular file, and has a name in UTF-8.
abbrev pub AreRegular : List DirEntry → Type 0
AreRegular [] = Unit {0}
AreRegular (e ∷ es) =
    ((name : String) × (e.file_name ≡ some name))
    × ((e.entry_is_dir || e.entry_is_file) ≡ true)
    × AreRegular es

module _ (R : Repository) (F : FileSystem R) where
  insert_entry-AreTrees :
      (s s' : R.State) (name : String) (oid : Oid) (builder result : Builder)
      → AreTrees builder
      → insert_entry R F s name oid tree_mode builder ≡ ok (s', result)
      → AreTrees result
  unfolding insert_entry
  insert_entry-AreTrees s s' name oid builder result h e =
      let (_, _, done) = >>=-eq-ok (git_err (R.check_entry s name oid tree_mode)) _ e in
      subst AreTrees (ap (λ x. x.1) (ok-injective done)) (AreTrees-append builder name oid h)

  insert_if-AreTrees :
      (b : Bool) (s s' : R.State) (name : String) (oid : Oid) (builder result : Builder)
      → AreTrees builder
      → insert_if R F b s name oid builder ≡ ok (s', result)
      → AreTrees result
  insert_if-AreTrees true s s' name oid builder result h e =
      insert_entry-AreTrees s s' name oid builder result h e
  insert_if-AreTrees false s s' name oid builder result h e =
      subst AreTrees (ap (λ x. x.1) (ok-injective e)) h

  module _ (walk : PathBuf → R.State → Result StoreError (R.State × Oid)) (files : F.State)
      (depth : ℕ) where
    build_named-regular :
        (e : DirEntry) (name : String) (s : R.State) (builder : Builder) {r : R.State × Builder}
        → build_named R F walk files depth e name s builder ≡ ok r
        → (e.entry_is_dir || e.entry_is_file) ≡ true
    unfolding build_named
    build_named-regular e name s builder h = ground arith

    build_named-AreTrees :
        (e : DirEntry) (name : String) (s s' : R.State) (builder result : Builder)
        → ltb depth 2 ≡ true
        → AreTrees builder
        → build_named R F walk files depth e name s builder ≡ ok (s', result)
        → AreTrees result
    unfolding build_named add_directory
    build_named-AreTrees e name s s' builder result above h r = elim (Bool-cases e.entry_is_dir) [
      | inl directory ↦
          let ((s1, oid), _, added) =
            >>=-eq-ok (walk e.path s) _ (rw (directory, build_named) at r) in
          let (kept, _, inserted) = >>=-eq-ok (is_kept R F depth s1 oid) _ added in
          insert_if-AreTrees kept s1 s' name oid builder result h inserted
      | inr other ↦ elim (Bool-cases e.entry_is_file) [
        | inl file ↦
            subst AreTrees
              (ap (λ x. x.1) (ok-injective (rw (other, build_named, file, above) at r))) h
        | inr special ↦ cc (rw (other, build_named, special) at r)
      ]
    ]

    -- On the two upper levels of a configuration directory, the entries that `build_entries` adds
    -- are directories, and if it succeeds, every entry is a directory or a regular file and has a
    -- name in UTF-8.
    pub build_entries-AreTrees :
        (es : List DirEntry) (s s' : R.State) (builder result : Builder)
        → ltb depth 2 ≡ true
        → AreTrees builder
        → build_entries R F walk files depth es s builder ≡ ok (s', result)
        → AreTrees result × AreRegular es
    unfolding build_entries
    build_entries-AreTrees [] s s' builder result above h e =
        (subst AreTrees (ap (λ x. x.1) (ok-injective e)) h, tt)
    build_entries-AreTrees (e ∷ es) s s' builder result above h r =
        elim (Option-cases e.file_name) [
          | inl nameless ↦ cc (rw (nameless, build_entries) at r)
          | inr (name, named) ↦
              let ((s1, b1), one, rest) =
                >>=-eq-ok (build_named R F walk files depth e name s builder) _
                  (rw (named, build_entries) at r) in
              let (trees, regular) =
                build_entries-AreTrees es s1 s' b1 result above
                  (build_named-AreTrees e name s s1 builder b1 above h one) rest in
              (trees, ((name, named), build_named-regular e name s builder one, regular))
        ]
