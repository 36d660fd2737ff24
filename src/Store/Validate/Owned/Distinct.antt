-- ===== src/Store/Validate/Owned/Distinct.antt =====
-- src/store.rs: two apps of a host that provide the same file are one app, where `validate` succeeds.
use mathlib.Core.Path.{subst}
use mathlib.Core.Option.{some-injective}
use deptool.Base.{
  ◌≡◌, sym, ◌∙◌, ap, String, Bool, true, some, [], ◌∷◌, inl, inr, ok, Result-cases, Bool-cases,
  Option-cases, ok-injective, contains, ◌==◌, string_ord, if◌then◌else◌,
}
use deptool.BTreeMap.{BTreeMap, get, keys}
use deptool.BTreeMap.Laws.{get-nil, get-cons}
use deptool.BTreeMap.Set.{BTreeSet}
use deptool.Types.{Oid, Hostname}
use deptool.Store.Repository.{Repository, Tree, TreeEntry, get_name, name_is}
use deptool.Store.Trees.{find_tree, get_host_apps, subdir_entries}
use deptool.Store.Validate.{
  Owners, no_owners, validate_app, validate_apps, validate_app_manifests, validate_hosts, validate,
}
use deptool.Store.Validate.Owned.{
  Managed, dir_name, owners_of, Claimed, claims_of, validate_app-AppClaims,
}

module _ (R : Repository) (s : R.State) (dir : Managed) (name : String) where
  -- The app's tree has the file in the managed directory.
  abbrev pub Provides : Oid → Type 0
  Provides app_tree =
      (names : BTreeSet String) × (subdir_entries R s app_tree (dir_name dir) ≡ ok names)
      × (contains (keys names) name ≡ true)

  same_names :
      (app : String) (app_tree : Oid) (o o' : Owners)
      → validate_app R s app app_tree o ≡ ok o'
      → Provides app_tree
      → (names : BTreeSet String) × Claimed app (keys names) (owners_of dir o) (owners_of dir o')
        × (contains (keys names) name ≡ true)
  same_names app app_tree o o' valid (names, read, has) =
      let (found, read', claimed) =
        claims_of R s dir app app_tree o o' (validate_app-AppClaims R s app app_tree o o' valid) in
      (
        found,
        claimed,
        subst (λ ns. contains (keys ns) name ≡ true) (ok-injective (sym read ∙ read')) has,
      )

  -- A file that has an owner already is not provided by a further app.
  blocked :
      (apps : BTreeMap String Oid) (o o' : Owners) (x app : String) (app_tree : Oid)
      → validate_apps R s apps o ≡ ok o'
      → get name (owners_of dir o) ≡ some x
      → get app apps ≡ some app_tree
      → Provides app_tree
      → ⊥
  unfolding validate_apps
  blocked [] o o' x app app_tree valid owned listed p = cc (get-nil {V = Oid} app)
  blocked ((first, tree) ∷ rest) o o' x app app_tree valid owned listed p =
      elim (Result-cases (validate_app R s first tree o)) [
        | inr (_, stop) ↦ cc (rw stop at valid)
        | inl (next, done) ↦ elim (Bool-cases (app == first)) [
          | inl here ↦
              let at : tree ≡ app_tree =
                some-injective tree app_tree
                  (sym (get-cons app first tree rest ∙ rw here) ∙ listed) in
              let (names, claimed, has) =
                same_names first tree o next done (subst Provides (sym at) p) in
              cc (claimed.free name x owned, has)
          | inr later ↦
              let (_, _, claimed) =
                claims_of R s dir first tree o next
                  (validate_app-AppClaims R s first tree o next done) in
              blocked rest next o' x app app_tree (rw done at valid) (claimed.keeps name x owned)
                (sym (get-cons app first tree rest ∙ rw later) ∙ listed) p
        ]
      ]

  -- The file belongs to the first app, so that no later app provides it.
  first_blocks :
      (first app : String) (tree app_tree : Oid) (rest : BTreeMap String Oid) (o next o' : Owners)
      → validate_app R s first tree o ≡ ok next
      → validate_apps R s rest next ≡ ok o'
      → Provides tree
      → get app rest ≡ some app_tree
      → Provides app_tree
      → ⊥
  first_blocks first app tree app_tree rest o next o' done valid p listed q =
      let (names, claimed, has) = same_names first tree o next done p in
      blocked rest next o' first app app_tree valid (claimed.owns name has) listed q

  validate_apps_distinct :
      (apps : BTreeMap String Oid) (o o' : Owners) (a b : String) (ta tb : Oid)
      → validate_apps R s apps o ≡ ok o'
      → get a apps ≡ some ta
      → get b apps ≡ some tb
      → Provides ta
      → Provides tb
      → a ≡ b
  unfolding validate_apps
  validate_apps_distinct [] o o' a b ta tb valid la lb pa pb = cc (get-nil {V = Oid} a)
  validate_apps_distinct ((first, tree) ∷ rest) o o' a b ta tb valid la lb pa pb =
      let ga = sym (get-cons a first tree rest) ∙ la in
      let gb = sym (get-cons b first tree rest) ∙ lb in
      elim (Result-cases (validate_app R s first tree o)) [
        | inr (_, stop) ↦ cc (rw stop at valid)
        | inl (next, done) ↦
            let later = rw done at valid in
            elim (Bool-cases (a == first)) [
              | inl ea ↦ elim (Bool-cases (b == first)) [
                | inl eb ↦
                    (string_ord.beq_iff a first).0 ea ∙ sym ((string_ord.beq_iff b first).0 eb)
                | inr nb ↦ absurd (
                    first_blocks first b tree tb rest o next o' done later
                      (subst Provides (sym (some-injective tree ta (rw ea at ga))) pa) (rw nb at gb)
                      pb)
              ]
              | inr na ↦ elim (Bool-cases (b == first)) [
                | inl eb ↦ absurd (
                    first_blocks first a tree ta rest o next o' done later
                      (subst Provides (sym (some-injective tree tb (rw eb at gb))) pb) (rw na at ga)
                      pa)
                | inr nb ↦
                    validate_apps_distinct rest next o' a b ta tb later (rw na at ga) (rw nb at gb)
                      pa pb
              ]
            ]
      ]

module _ (R : Repository) (s : R.State) where
  manifests_valid :
      (t : Tree) (host : Hostname) (apps : BTreeMap String Oid)
      → validate_app_manifests R s t host ≡ ok tt
      → get_host_apps R s t host ≡ ok apps
      → (o : Owners) × (validate_apps R s apps no_owners ≡ ok o)
  unfolding validate_app_manifests
  manifests_valid t host apps valid read = elim (Result-cases (validate_apps R s apps no_owners)) [
    | inl (o, done) ↦ (o, done)
    | inr (_, stop) ↦ cc (rw stop at (rw read at valid))
  ]

  hosts_valid :
      (t es : Tree) (host : Hostname) (e : TreeEntry)
      → validate_hosts R s t es ≡ ok tt
      → get_name es host ≡ some e
      → validate_app_manifests R s t host ≡ ok tt
  unfolding validate_hosts get_name
  hosts_valid t [] host e valid found = cc
  hosts_valid t (x ∷ es) host e valid found = elim (Option-cases x.name) [
    | inl absent ↦ cc (rw (absent, validate_hosts) at valid)
    | inr (h, named) ↦ elim (Result-cases (validate_app_manifests R s t h)) [
      | inr (_, stop) ↦ cc (rw (named, stop, validate_hosts) at valid)
      | inl (_, done) ↦ elim (Bool-cases (h == host)) [
        | inl here ↦
            subst (λ k. validate_app_manifests R s t k ≡ ok tt) ((string_ord.beq_iff h host).0 here)
              done
        | inr later ↦ hosts_valid t es host e (rw (named, done, validate_hosts) at valid) (
            sym (
              ap (λ (b : Bool). if b then some x else get_name es host)
                (ap (λ o. name_is o host) named ∙ later))
            ∙ found)
      ]
    ]
  ]

  -- Where `validate` succeeds on a configuration tree, two apps of a host of the tree that both
  -- provide a file of the same name in the same managed directory are the same app.
  pub validate_distinct :
      (tree_oid : Oid) (t : Tree) (host : Hostname) (e : TreeEntry) (apps : BTreeMap String Oid)
      (dir : Managed) (name a b : String) (ta tb : Oid)
      → validate R s tree_oid ≡ ok tt
      → find_tree R s tree_oid ≡ ok t
      → get_name t host ≡ some e
      → get_host_apps R s t host ≡ ok apps
      → get a apps ≡ some ta
      → get b apps ≡ some tb
      → Provides R s dir name ta
      → Provides R s dir name tb
      → a ≡ b
  unfolding validate
  validate_distinct tree_oid t host e apps dir name a b ta tb valid found listed read la lb pa pb =
      let hosts = hosts_valid t t host e (rw found at valid) listed in
      let (o, done) = manifests_valid t host apps hosts read in
      validate_apps_distinct R s dir name apps no_owners o a b ta tb done la lb pa pb
