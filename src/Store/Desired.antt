-- ===== src/Store/Desired.antt =====
-- src/store.rs: the links that a commit wants in the managed directories of a host, and the links
-- of its manifests.
use deptool.Base.{String, List, [], ◌∷◌, Result, ok, ◌>>=◌, string_ord}
use deptool.BTreeMap.{BTreeMap, insert, keys}
use deptool.Types.{Oid, Hostname, PathBuf, join}
use deptool.Error.{StoreError}
use deptool.Store.Repository.{Repository}
use deptool.Store.Refs.{get_commit_tree}
use deptool.Store.Trees.{get_host_apps, subdir_entries, read_manifest}

-- `apps_dir/<app>/current`
unfoldable pub current_path : PathBuf → String → PathBuf
current_path apps_dir app = join (join apps_dir app) "current"

unfoldable pub insert_names :
    PathBuf → String → String → List String → BTreeMap String PathBuf → BTreeMap String PathBuf
insert_names apps_dir app subdir [] result = result
insert_names apps_dir app subdir (name ∷ names) result =
    insert_names apps_dir app subdir names
      (insert name (join (join (current_path apps_dir app) subdir) name) result)

unfoldable pub insert_links :
    PathBuf → String → BTreeMap String String → BTreeMap PathBuf PathBuf → BTreeMap PathBuf PathBuf
insert_links apps_dir app [] result = result
insert_links apps_dir app ((link, source) ∷ links) result =
    insert_links apps_dir app links (insert link (join (current_path apps_dir app) source) result)

module _ (R : Repository) where
  open R use {State}

  unfoldable pub subdir_links :
      State
      → PathBuf
      → String
      → BTreeMap String Oid
      → BTreeMap String PathBuf
      → Result StoreError (BTreeMap String PathBuf)
  subdir_links s apps_dir subdir [] result = ok result
  subdir_links s apps_dir subdir ((app, app_tree_oid) ∷ apps) result = do
    names ← subdir_entries R s app_tree_oid subdir
    subdir_links s apps_dir subdir apps (insert_names apps_dir app subdir (keys names) result)

  unfoldable pub desired_subdir_symlinks :
      State → Oid → Hostname → PathBuf → String → Result StoreError (BTreeMap String PathBuf)
  desired_subdir_symlinks s commit_oid host apps_dir subdir = do
    t ← get_commit_tree R s commit_oid
    apps ← get_host_apps R s t host
    subdir_links s apps_dir subdir apps []

  unfoldable pub manifest_links :
      State
      → PathBuf
      → BTreeMap String Oid
      → BTreeMap PathBuf PathBuf
      → Result StoreError (BTreeMap PathBuf PathBuf)
  manifest_links s apps_dir [] result = ok result
  manifest_links s apps_dir ((app, app_tree_oid) ∷ apps) result = do
    manifest ← read_manifest R s app_tree_oid
    manifest_links s apps_dir apps (insert_links apps_dir app manifest.symlinks result)

  unfoldable pub desired_symlinks :
      State → Oid → Hostname → PathBuf → Result StoreError (BTreeMap PathBuf PathBuf)
  desired_symlinks s commit_oid host apps_dir = do
    t ← get_commit_tree R s commit_oid
    apps ← get_host_apps R s t host
    manifest_links s apps_dir apps []

  unfoldable pub desired_networkd :
      State → Oid → Hostname → PathBuf → Result StoreError (BTreeMap String PathBuf)
  desired_networkd s commit_oid host apps_dir =
      desired_subdir_symlinks s commit_oid host apps_dir "networkd"

  unfoldable pub desired_quadlets :
      State → Oid → Hostname → PathBuf → Result StoreError (BTreeMap String PathBuf)
  desired_quadlets s commit_oid host apps_dir =
      desired_subdir_symlinks s commit_oid host apps_dir "quadlets"

  unfoldable pub desired_sysusers :
      State → Oid → Hostname → PathBuf → Result StoreError (BTreeMap String PathBuf)
  desired_sysusers s commit_oid host apps_dir =
      desired_subdir_symlinks s commit_oid host apps_dir "sysusers"

  unfoldable pub desired_units :
      State → Oid → Hostname → PathBuf → Result StoreError (BTreeMap String PathBuf)
  desired_units s commit_oid host apps_dir =
      desired_subdir_symlinks s commit_oid host apps_dir "systemd"
