-- ===== src/Plan/Changes.antt =====
-- src/plan.rs: the changes to one app and to the host system, and how they are combined.
use deptool.Base.{String, Bool, false, Option, List, [], ◌++◌, map, ◌&&◌, ◌||◌, not, is_empty}
use deptool.BTreeMap.{BTreeMap}
use deptool.Types.{Oid, PathBuf, join}
use deptool.Store.Trees.{empty_tree_oid}

pub data AppDiff : Type 0 where
  add : Oid → AppDiff
  remove : Oid → AppDiff
  update : Oid → Oid → AppDiff

unfoldable pub old_tree : AppDiff → Oid
old_tree (add _) = empty_tree_oid
old_tree (remove old) = old
old_tree (update old _) = old

unfoldable pub new_tree : AppDiff → Oid
new_tree (add new) = new
new_tree (remove _) = empty_tree_oid
new_tree (update _ new) = new

pub record SubdirChanges : Type 0 where
  pub link : List String
  pub unlink : List String
  pub content_changed : Bool

pub record UnitActions : Type 0 where
  pub enable : List String
  pub restart : List String
  pub disable : List String

pub record SymlinkChanges (T : Type 0) : Type 0 where
  pub create : List (T × T)
  pub remove : List T
  pub change : List (T × T)

pub record SystemDiff (T : Type 0) : Type 0 where
  pub networkd : SubdirChanges
  pub quadlets : SubdirChanges
  pub symlinks : SymlinkChanges T
  pub sysusers : SubdirChanges
  pub units : SubdirChanges
  pub unit_actions : UnitActions

-- The values of `#[derive(Default)]`.
abbrev pub no_subdir_changes : SubdirChanges
no_subdir_changes = record { link = []; unlink = []; content_changed = false }

abbrev pub no_unit_actions : UnitActions
no_unit_actions = record { enable = []; restart = []; disable = [] }

abbrev pub no_symlink_changes : {T : Type 0} → SymlinkChanges T
no_symlink_changes = record { create = []; remove = []; change = [] }

abbrev pub default : {T : Type 0} → SystemDiff T
default = record {
  networkd = no_subdir_changes;
  quadlets = no_subdir_changes;
  symlinks = no_symlink_changes;
  sysusers = no_subdir_changes;
  units = no_subdir_changes;
  unit_actions = no_unit_actions;
}

-- `is_empty`
abbrev pub subdir_is_empty : SubdirChanges → Bool
subdir_is_empty c = is_empty c.link && (is_empty c.unlink && not c.content_changed)

abbrev pub units_is_empty : UnitActions → Bool
units_is_empty c = is_empty c.enable && (is_empty c.restart && is_empty c.disable)

abbrev pub symlinks_is_empty : {T : Type 0} → SymlinkChanges T → Bool
symlinks_is_empty c = is_empty c.create && (is_empty c.remove && is_empty c.change)

-- `is_rollback_safe` of the parts: what was created cannot be undone.
abbrev pub subdir_is_rollback_safe : SubdirChanges → Bool
subdir_is_rollback_safe c = is_empty c.link

abbrev pub units_is_rollback_safe : UnitActions → Bool
units_is_rollback_safe c = is_empty c.enable

abbrev pub symlinks_is_rollback_safe : {T : Type 0} → SymlinkChanges T → Bool
symlinks_is_rollback_safe c = is_empty c.create

unfoldable pub is_rollback_safe : {T : Type 0} → SystemDiff T → Bool
is_rollback_safe d =
    subdir_is_rollback_safe d.networkd
    && (subdir_is_rollback_safe d.quadlets
        && (symlinks_is_rollback_safe d.symlinks
            && (subdir_is_rollback_safe d.sysusers
                && (subdir_is_rollback_safe d.units && units_is_rollback_safe d.unit_actions))))

-- `append(&mut self, other: &mut Self)` returns `self` and `other` as they are afterwards. The
-- vectors of `other` are drained; its `content_changed` stays.
unfoldable pub subdir_append : SubdirChanges → SubdirChanges → SubdirChanges × SubdirChanges
subdir_append a b = (
  record {
    link = a.link ++ b.link;
    unlink = a.unlink ++ b.unlink;
    content_changed = a.content_changed || b.content_changed;
  },
  record b { link = []; unlink = [] },
)

unfoldable pub units_append : UnitActions → UnitActions → UnitActions × UnitActions
units_append a b = (
  record {
    enable = a.enable ++ b.enable;
    restart = a.restart ++ b.restart;
    disable = a.disable ++ b.disable;
  },
  no_unit_actions,
)

unfoldable pub symlinks_append :
    {T : Type 0} → SymlinkChanges T → SymlinkChanges T → SymlinkChanges T × SymlinkChanges T
symlinks_append a b = (
  record {
    create = a.create ++ b.create;
    remove = a.remove ++ b.remove;
    change = a.change ++ b.change;
  },
  no_symlink_changes,
)

unfoldable pub append : {T : Type 0} → SystemDiff T → SystemDiff T → SystemDiff T × SystemDiff T
unfolding subdir_append units_append symlinks_append
append a b = (
  record {
    networkd = (subdir_append a.networkd b.networkd).0;
    quadlets = (subdir_append a.quadlets b.quadlets).0;
    symlinks = (symlinks_append a.symlinks b.symlinks).0;
    sysusers = (subdir_append a.sysusers b.sysusers).0;
    units = (subdir_append a.units b.units).0;
    unit_actions = (units_append a.unit_actions b.unit_actions).0;
  },
  record {
    networkd = (subdir_append a.networkd b.networkd).1;
    quadlets = (subdir_append a.quadlets b.quadlets).1;
    symlinks = (symlinks_append a.symlinks b.symlinks).1;
    sysusers = (subdir_append a.sysusers b.sysusers).1;
    units = (subdir_append a.units b.units).1;
    unit_actions = (units_append a.unit_actions b.unit_actions).1;
  },
)

-- `SymlinkChanges::map`
unfoldable pub map_symlinks :
    {T U : Type 0} → (T → U) → (T → U) → SymlinkChanges T → SymlinkChanges U
map_symlinks link source c = record {
  create = map (λ (l, s). (link l, source s)) c.create;
  remove = map link c.remove;
  change = map (λ (l, s). (link l, source s)) c.change;
}

unfoldable pub resolve_symlinks : SystemDiff String → String → PathBuf → SystemDiff PathBuf
unfolding map_symlinks
resolve_symlinks d app apps_dir =
    let current_dir = join (join apps_dir app) "current" in
    record {
      networkd = d.networkd;
      quadlets = d.quadlets;
      symlinks = map_symlinks (λ l. l) (λ s. join current_dir s) d.symlinks;
      sysusers = d.sysusers;
      units = d.units;
      unit_actions = d.unit_actions;
    }

pub record AppPlan : Type 0 where
  pub diff : AppDiff
  pub system : SystemDiff String

pub record HostPlan : Type 0 where
  pub apps : BTreeMap String AppPlan
  pub expected_current : Option Oid
  pub is_rollback_safe : Bool
