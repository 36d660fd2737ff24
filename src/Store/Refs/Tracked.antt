-- ===== src/Store/Refs/Tracked.antt =====
-- src/store.rs: what the tracking references say, as `host_tracking_refs` reads them.
use mathlib.Core.Path.{subst₂}
use mathlib.Core.Option.{some-injective}
use deptool.Base.{
  ok-injective, ◌≡◌, refl, sym, ◌∙◌, some, List, [], ◌∷◌, inl, inr, ok, Result-cases, Option-cases,
  Bool-cases, ◌==◌, string_ord,
}
use deptool.BTreeMap.{BTreeMap, get, insert}
use deptool.BTreeMap.Laws.{get-nil, get-insert}
use deptool.Types.{Oid, Hostname}
use deptool.Store.Repository.{Repository, Tree, TreeEntry, get_name}
use deptool.Store.Refs.{
  HostRef, tracking_loop, note_entry, host_tracking_refs, get_commit_tree, tracking_ref,
}

module _ (R : Repository) (s : R.State) where
  -- What a tracking reference says of a host: the commit that it points to, and the entry of the
  -- host in the tree of that commit.
  pub record IsTracked (host : Hostname) (hr : HostRef) : Type 0 where
    pub config_tree : Tree
    pub entry : TreeEntry
    pub points : R.find_reference s (tracking_ref host) ≡ ok hr.commit
    pub reads : get_commit_tree R s hr.commit ≡ ok config_tree
    pub has_entry : get_name config_tree host ≡ some entry
    pub is_entry : entry.id ≡ hr.host_tree

  abbrev AllTracked : BTreeMap Hostname HostRef → Type 0
  AllTracked refs = (host : Hostname) (hr : HostRef) → get host refs ≡ some hr → IsTracked host hr

  insert-AllTracked :
      (host : Hostname) (hr : HostRef) (refs : BTreeMap Hostname HostRef)
      → IsTracked host hr
      → AllTracked refs
      → AllTracked (insert host hr refs)
  insert-AllTracked host hr refs tracked h other x e = elim (Bool-cases (other == host)) [
    | inl same ↦
        subst₂ IsTracked (sym ((string_ord.beq_iff other host).0 same))
          (some-injective hr x (sym (get-insert other host hr refs ∙ rw same) ∙ e)) tracked
    | inr differ ↦ h other x (sym (get-insert other host hr refs ∙ rw differ) ∙ e)
  ]

  note_entry-AllTracked :
      (host : Hostname) (commit : Oid) (t : Tree) (refs : BTreeMap Hostname HostRef)
      → R.find_reference s (tracking_ref host) ≡ ok commit
      → get_commit_tree R s commit ≡ ok t
      → AllTracked refs
      → AllTracked (note_entry host commit (get_name t host) refs)
  note_entry-AllTracked host commit t refs points reads h = elim (Option-cases (get_name t host)) [
    | inl absent ↦ rw absent h
    | inr (entry, present) ↦
        let hr : HostRef = record { commit = commit; host_tree = entry.id } in
        let tracked : IsTracked host hr = record {
          config_tree = t;
          entry = entry;
          points = points;
          reads = reads;
          has_entry = present;
          is_entry = refl;
        } in
        rw present (insert-AllTracked host hr refs tracked h)
  ]

  tracking_loop-AllTracked :
      (hosts : List Hostname) (result refs : BTreeMap Hostname HostRef)
      → AllTracked result
      → tracking_loop R s hosts result ≡ ok refs
      → AllTracked refs
  unfolding tracking_loop
  tracking_loop-AllTracked [] result refs h e = rw (← ok-injective e) h
  tracking_loop-AllTracked (host ∷ hosts) result refs h e =
      elim (Result-cases (R.find_reference s (tracking_ref host))) [
        | inr (_, missing) ↦
            tracking_loop-AllTracked hosts result refs h (rw (missing, tracking_loop) at e)
        | inl (commit, points) ↦ elim (Result-cases (get_commit_tree R s commit)) [
          | inr (_, failed) ↦ cc (rw (points, failed, tracking_loop) at e)
          | inl (t, reads) ↦
              tracking_loop-AllTracked hosts (note_entry host commit (get_name t host) result) refs
                (note_entry-AllTracked host commit t result points reads h)
                (rw (points, reads, tracking_loop) at e)
        ]
      ]

  nothing_in_nil : (host : Hostname) (hr : HostRef) → get host [] ≡ some hr → IsTracked host hr
  nothing_in_nil host hr g = cc (get-nil {V = HostRef} host)

  -- Every entry of the result of `host_tracking_refs` is the commit that the tracking reference of
  -- the host points to, with the entry of the host in the tree of that commit.
  pub host_tracking_refs-IsTracked :
      (hosts : List Hostname) (refs : BTreeMap Hostname HostRef)
      → host_tracking_refs R s hosts ≡ ok refs
      → (host : Hostname) (hr : HostRef) → get host refs ≡ some hr
      → IsTracked host hr
  unfolding host_tracking_refs
  host_tracking_refs-IsTracked hosts refs e =
      tracking_loop-AllTracked hosts [] refs (λ host hr g. nothing_in_nil host hr g) e
