-- ===== src/Plan/Diff.antt =====
-- src/plan.rs: the differences between two sets of units, links, apps, trees and commits.
use deptool.Base.{
  String, Bool, true, false, Option, none, some, List, [], ◌∷◌, ◌++◌, not, Ord, ◌==◌, string_ord,
  Result, ok, ◌>>=◌, transpose_or, if◌then◌else◌,
}
use deptool.BTreeMap.{BTreeMap, get, insert, contains_key, keys}
use deptool.BTreeMap.Set.{BTreeSet, difference}
use deptool.Types.{Oid, Hostname, PathBuf}
use deptool.Error.{StoreError}
use deptool.Store.Repository.{Repository}
use deptool.Store.Refs.{get_commit_tree}
use deptool.Store.Trees.{get_host_apps, subdir_entries, subtree_oid, read_manifest, enabled_units}
use deptool.Plan.Changes.{
  AppDiff, add, remove, update, old_tree, new_tree, SubdirChanges, UnitActions, SymlinkChanges,
  SystemDiff, AppPlan, no_unit_actions, no_symlink_changes, default, append, resolve_symlinks,
}

-- The loops of `diff_enabled`, over the target set and over the previous set.
unfoldable pub enabled_loop : BTreeSet String → List String → UnitActions → UnitActions
enabled_loop prev [] c = c
enabled_loop prev (name ∷ names) c = enabled_loop prev names (
    if contains_key name prev
    then record c { restart = c.restart ++ (name ∷ []) }
    else record c { enable = c.enable ++ (name ∷ []) })

unfoldable pub disabled_loop : BTreeSet String → List String → UnitActions → UnitActions
disabled_loop target [] c = c
disabled_loop target (name ∷ names) c =
    disabled_loop target names
      (if contains_key name target then c else record c { disable = c.disable ++ (name ∷ []) })

unfoldable pub diff_enabled : BTreeSet String → BTreeSet String → UnitActions
unfolding enabled_loop disabled_loop
diff_enabled prev target =
    disabled_loop target (keys prev) (enabled_loop prev (keys target) no_unit_actions)

module _ {T : Type 0} ⦃o : Ord T⦄ where
  unfoldable pub links_loop : BTreeMap T T → BTreeMap T T → SymlinkChanges T → SymlinkChanges T
  links_loop previous [] c = c
  links_loop previous ((link, source) ∷ target) c =
      links_loop previous target (elim (get link previous) [
        | none ↦ record c { create = c.create ++ ((link, source) ∷ []) }
        | some prev_source ↦
            if not (prev_source == source)
            then record c { change = c.change ++ ((link, source) ∷ []) }
            else c
      ])

  unfoldable pub unlinks_loop : BTreeMap T T → List T → SymlinkChanges T → SymlinkChanges T
  unlinks_loop target [] c = c
  unlinks_loop target (link ∷ links) c =
      unlinks_loop target links
        (if contains_key link target then c else record c { remove = c.remove ++ (link ∷ []) })

  unfoldable pub diff_symlinks : BTreeMap T T → BTreeMap T T → SymlinkChanges T
  unfolding links_loop unlinks_loop
  diff_symlinks previous target =
      unlinks_loop target (keys previous) (links_loop previous target no_symlink_changes)

-- The body of the first loop of `diff_apps`.
unfoldable pub changed_step :
    BTreeMap String Oid → String → Oid → BTreeMap String AppDiff → BTreeMap String AppDiff
changed_step current name target_oid changes = elim (get name current) [
  | none ↦ insert name (add target_oid) changes
  | some cur_oid ↦
      if not (cur_oid == target_oid)
      then insert name (update cur_oid target_oid) changes
      else changes
]

unfoldable pub changed_loop :
    BTreeMap String Oid → BTreeMap String Oid → BTreeMap String AppDiff → BTreeMap String AppDiff
unfolding changed_step
changed_loop current [] changes = changes
changed_loop current ((name, target_oid) ∷ target) changes =
    changed_loop current target (changed_step current name target_oid changes)

-- The body of the second loop.
unfoldable pub removed_step :
    BTreeMap String Oid → String → Oid → BTreeMap String AppDiff → BTreeMap String AppDiff
removed_step target name oid changes =
    if contains_key name target then changes else insert name (remove oid) changes

unfoldable pub removed_loop :
    BTreeMap String Oid → BTreeMap String Oid → BTreeMap String AppDiff → BTreeMap String AppDiff
unfolding removed_step
removed_loop target [] changes = changes
removed_loop target ((name, oid) ∷ current) changes =
    removed_loop target current (removed_step target name oid changes)

unfoldable pub diff_apps : BTreeMap String Oid → BTreeMap String Oid → BTreeMap String AppDiff
unfolding changed_loop removed_loop
diff_apps current target = removed_loop target current (changed_loop current target [])

-- `!=` on two `Option<Oid>`
abbrev oid_option_ne : Option Oid → Option Oid → Bool
oid_option_ne none none = false
oid_option_ne none (some b) = true
oid_option_ne (some a) none = true
oid_option_ne (some a) (some b) = not (a == b)

module _ (R : Repository) where
  open R use {State}

  unfoldable pub subdir_changes : State → Oid → Oid → String → Result StoreError SubdirChanges
  subdir_changes s old new subdir = do
    old_files ← subdir_entries R s old subdir
    new_files ← subdir_entries R s new subdir
    old_oid ← subtree_oid R s old subdir
    new_oid ← subtree_oid R s new subdir
    ok (record {
      link = difference new_files old_files;
      unlink = difference old_files new_files;
      content_changed = oid_option_ne old_oid new_oid;
    })

  unfoldable pub compute_system_diff : State → AppDiff → Result StoreError (SystemDiff String)
  compute_system_diff s diff = do
    let old = old_tree diff
    let new = new_tree diff
    networkd ← subdir_changes s old new "networkd"
    quadlets ← subdir_changes s old new "quadlets"
    old_manifest ← read_manifest R s old
    new_manifest ← read_manifest R s new
    sysusers ← subdir_changes s old new "sysusers"
    units ← subdir_changes s old new "systemd"
    old_enabled ← enabled_units R s old
    new_enabled ← enabled_units R s new
    ok (record {
      networkd = networkd;
      quadlets = quadlets;
      symlinks = diff_symlinks old_manifest.symlinks new_manifest.symlinks;
      sysusers = sysusers;
      units = units;
      unit_actions = diff_enabled old_enabled new_enabled;
    })

  unfoldable pub compute_app_plan : State → AppDiff → Result StoreError AppPlan
  compute_app_plan s diff = do
    system ← compute_system_diff s diff
    ok (record { diff = diff; system = system })

  -- The apps of a host in a commit.
  unfoldable pub get_apps : State → Hostname → Oid → Result StoreError (BTreeMap String Oid)
  get_apps s host oid = do t ← get_commit_tree R s oid; get_host_apps R s t host

  unfoldable pub system_loop :
      State
      → PathBuf
      → BTreeMap String AppDiff
      → SystemDiff PathBuf
      → Result StoreError (SystemDiff PathBuf)
  system_loop s apps_dir [] system = ok system
  system_loop s apps_dir ((app, change) ∷ diffs) system = do
    d ← compute_system_diff s change
    system_loop s apps_dir diffs (append system (resolve_symlinks d app apps_dir)).0

  unfoldable pub diff_host :
      State
      → Hostname
      → PathBuf
      → Option Oid
      → Option Oid
      → Result StoreError (BTreeMap String AppDiff × SystemDiff PathBuf)
  diff_host s host apps_dir current_commit target_commit = do
    current_apps ← transpose_or (get_apps s host) [] current_commit
    target_apps ← transpose_or (get_apps s host) [] target_commit
    let app_diffs = diff_apps current_apps target_apps
    system ← system_loop s apps_dir app_diffs default
    ok (app_diffs, system)
