-- ===== src/Sync/Selection.antt =====
-- src/sync.rs: which hosts a sync contacts, and the commit that each is expected to be at.
use deptool.Base.{
  ◌≡◌, ◌≢◌, refl, sym, ◌∙◌, Bool, true, false, Option, none, some, [], ◌∷◌, arith, ◌==◌, string_ord,
  if◌then◌else◌, ap, subst, Result, ok, err, map_err, >>=-eq-ok, ok-injective,
}
use deptool.BTreeMap.{BTreeMap, get, insert, keys, IsSorted}
use deptool.BTreeMap.Laws.{get-nil, get-cons, get-insert, get-AllAbove}
use deptool.Types.{Oid, Hostname}
use deptool.Error.{store_err}
use deptool.Store.Repository.{Repository}
use deptool.Store.Trees.{find_tree, host_trees}
use deptool.Store.Trees.Entries.{tree_entries-IsSorted}
use deptool.Plan.Filter.{HostFilter, apply}
use deptool.Plan.Filter.Laws.{IsFiltered, selects, apply-IsFiltered}
use deptool.Plan.Make.Origin.{apply-IsSorted}
use deptool.Store.Refs.{HostRef, host_tracking_refs}
use deptool.Sync.{
  SyncMode, all_hosts, only_changed, needs_sync, tracked_commit, select_loop, select_hosts_to_sync,
}

-- What is selected of one host, from its tree in the configuration, if it has one, and its
-- tracking reference.
abbrev selected : SyncMode → Option HostRef → Option Oid → Option (Option Oid) → Option (Option Oid)
selected mode host_ref none before = before
selected mode host_ref (some host_tree) before =
    if needs_sync mode host_ref host_tree then some (tracked_commit host_ref) else before

get-noted :
    (k host : Hostname) (sync : Bool) (commit : Option Oid)
    (to_sync : BTreeMap Hostname (Option Oid))
    → get k (if sync then insert host commit to_sync else to_sync)
      ≡ (if sync then (if k == host then some commit else get k to_sync) else get k to_sync)
get-noted k host true commit to_sync = get-insert k host commit to_sync
get-noted k host false commit to_sync = refl

get-select_loop :
    (mode : SyncMode) (host_refs : BTreeMap Hostname HostRef) (hosts : BTreeMap Hostname Oid)
    (to_sync : BTreeMap Hostname (Option Oid)) (k : Hostname)
    → IsSorted hosts
    → get k (select_loop mode host_refs hosts to_sync)
      ≡ selected mode (get k host_refs) (get k hosts) (get k to_sync)
unfolding select_loop
get-select_loop mode host_refs [] to_sync k s = ground (arith, get-nil {V = Oid} k)
get-select_loop mode host_refs ((host, host_tree) ∷ hosts) to_sync k s =
    get-select_loop mode host_refs hosts _ k s.1
    ∙ ground (
      arith,
      get-noted k host (needs_sync mode (get host host_refs) host_tree)
          (tracked_commit (get host host_refs)) to_sync,
      get-cons k host host_tree hosts,
      get-AllAbove host hosts s.0,
      string_ord.beq_iff k host,
    )

-- What should be selected of a host: nothing if it has no tree in the configuration or the filter
-- leaves it out, and otherwise by its tracking reference. `some none` stands for a host that is
-- expected to be without a commit.
pub record IsSelected (mode : SyncMode) (tree : Option Oid) (tracked : Option HostRef)
    (expected : Option (Option Oid)) : Type 0 where
  pub unconfigured : tree ≡ none → expected ≡ none
  pub untracked : (t : Oid) → tree ≡ some t → tracked ≡ none → expected ≡ some none
  pub changed :
      (t : Oid) (hr : HostRef)
      → tree ≡ some t
      → tracked ≡ some hr
      → hr.host_tree ≢ t
      → expected ≡ some (some hr.commit)
  pub unchanged :
      (t : Oid) (hr : HostRef)
      → tree ≡ some t
      → tracked ≡ some hr
      → hr.host_tree ≡ t
      → mode ≡ only_changed
      → expected ≡ none
  pub unchanged_in_all :
      (t : Oid) (hr : HostRef)
      → tree ≡ some t
      → tracked ≡ some hr
      → mode ≡ all_hosts
      → expected ≡ some (some hr.commit)

selected-changed :
    (mode : SyncMode) (t : Oid) (hr : HostRef)
    → hr.host_tree ≢ t
    → selected mode (some hr) (some t) none ≡ some (some hr.commit)
selected-changed all_hosts t hr differ = refl
selected-changed only_changed t hr differ = ground (arith, string_ord.beq_iff hr.host_tree t)

selected-untracked : (mode : SyncMode) (t : Oid) → selected mode none (some t) none ≡ some none
selected-untracked all_hosts t = refl
selected-untracked only_changed t = refl

selected-IsSelected :
    (mode : SyncMode) (tree : Option Oid) (tracked : Option HostRef)
    → IsSelected mode tree tracked (selected mode tracked tree none)
selected-IsSelected mode tree tracked = record {
  unconfigured = λ e. rw e refl;
  untracked = λ t e f. rw (e, f) (selected-untracked mode t);
  changed = λ t hr e f differ. rw (e, f) (selected-changed mode t hr differ);
  unchanged = λ t hr e f same m. rw (e, f, m) (ground (arith, string_ord.beq_iff hr.host_tree t));
  unchanged_in_all = λ t hr e f m. rw (e, f, m) refl;
}

map_err-eq-ok :
    {E F A : Type 0} (f : E → F) (m : Result E A) {a : A} → map_err f m ≡ ok a → m ≡ ok a
map_err-eq-ok f (ok a) e = ap ok (ok-injective e)
map_err-eq-ok f (err x) e = cc

module _ (R : Repository) (s : R.State) where
  host_trees-IsSorted :
      (tree_oid : Oid) (hosts : BTreeMap Hostname Oid)
      → host_trees R s tree_oid ≡ ok hosts
      → IsSorted hosts
  unfolding host_trees
  host_trees-IsSorted tree_oid hosts e =
      let (t, _, same) = >>=-eq-ok (find_tree R s tree_oid) _ e in
      rw (← ok-injective same) (tree_entries-IsSorted t)

  -- Let `select_hosts_to_sync` succeed. A host without a tree in the configuration, or that the
  -- filter leaves out, is not selected. Any other host is selected as expected to be without a
  -- commit if it has no tracking reference, and as expected to be at the commit of the reference
  -- if the reference has another tree for it, or in the mode of all hosts. In the mode of changed
  -- hosts, one whose reference has the same tree is not selected.
  pub select_hosts_to_sync_lem :
      (tree_oid : Oid) (mode : SyncMode) (filter : HostFilter) (all : BTreeMap Hostname Oid)
      (to_sync : BTreeMap Hostname (Option Oid))
      → host_trees R s tree_oid ≡ ok all
      → select_hosts_to_sync R s tree_oid mode filter ≡ ok to_sync
      → (config : BTreeMap Hostname Oid) × (refs : BTreeMap Hostname HostRef) × (host_tracking_refs
            R s
            (keys config)
          ≡ ok refs)
        × ((host : Hostname)
            → IsSelected mode
                (if selects filter host then get host all else none)
                (get host refs)
                (get host to_sync))
  unfolding select_hosts_to_sync
  select_hosts_to_sync_lem tree_oid mode filter all to_sync listed done =
      let (all', listed', e1) = >>=-eq-ok (map_err store_err (host_trees R s tree_oid)) _ done in
      let same =
        ok-injective (sym (map_err-eq-ok store_err (host_trees R s tree_oid) listed') ∙ listed) in
      let (config, filtered, e2) = >>=-eq-ok (apply filter all') _ e1 in
      let (refs, tracked, e3) =
        >>=-eq-ok (map_err store_err (host_tracking_refs R s (keys config))) _ e2 in
      let kept =
        subst (IsFiltered filter all) (ap (apply filter) (sym same) ∙ filtered)
          (apply-IsFiltered filter all (host_trees-IsSorted tree_oid all listed)) in
      let sorted =
        apply-IsSorted filter all config (host_trees-IsSorted tree_oid all listed)
          (ap (apply filter) (sym same) ∙ filtered) in
      (
        config,
        refs,
        map_err-eq-ok store_err (host_tracking_refs R s (keys config)) tracked,
        λ host.
            subst
              (IsSelected mode (if selects filter host then get host all else none) (get host refs))
              (sym (
                ap (λ m. get host m) (sym (ok-injective e3))
                ∙ (get-select_loop mode refs config [] host sorted
                    ∙ rw (kept.1 host, get-nil {V = Option Oid} host) refl)))
              (selected-IsSelected mode (if selects filter host then get host all else none)
                (get host refs)),
      )
