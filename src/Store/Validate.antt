-- ===== src/Store/Validate.antt =====
-- src/store.rs: `validate`, the checks on every host's apps before a plan is made.
pub mod Owned
use text.Mathlib.Text.{starts_with}
use deptool.Base.{
  String, ◌<>◌, Bool, true, false, Option, none, some, List, [], ◌∷◌, Result, ok, err, Fault,
  panicked, attempt, ◌>>=◌, ◌>>◌, string_ord, if◌then◌else◌,
}
use deptool.BTreeMap.{BTreeMap, get, insert, keys}
use deptool.Types.{Oid, Hostname}
use deptool.Error.{StoreError, invalid_config}
use deptool.Store.Repository.{Repository, Tree}
use deptool.Store.Trees.{find_tree, get_host_apps, subdir_entries, read_manifest}

-- Which app provides a name: files of the four managed directories, and manifest links.
pub record Owners : Type 0 where
  pub networkd : BTreeMap String String
  pub quadlets : BTreeMap String String
  pub symlinks : BTreeMap String String
  pub sysusers : BTreeMap String String
  pub units : BTreeMap String String

abbrev pub no_owners : Owners
no_owners = record { networkd = []; quadlets = []; symlinks = []; sysusers = []; units = [] }

-- `owners.insert(name, app)`, which fails if another app was there.
unfoldable pub claim :
    String → String → String → BTreeMap String String → Result StoreError (BTreeMap String String)
claim noun app name owners = elim (get name owners) [
  | none ↦ ok (insert name app owners)
  | some other ↦ err (
      invalid_config
        (noun <> (" " <> (name <> (" provided by both " <> (other <> (" and " <> app)))))))
]

unfoldable pub claim_all :
    String
    → String
    → List String
    → BTreeMap String String
    → Result StoreError (BTreeMap String String)
claim_all noun app [] owners = ok owners
claim_all noun app (name ∷ names) owners = do
  owners' ← claim noun app name owners
  claim_all noun app names owners'

abbrev pub managed_dirs : List String
managed_dirs =
    "/etc/systemd/network" ∷ "/etc/containers/systemd" ∷ "/etc/sysusers.d" ∷ "/etc/systemd/system"
    ∷ []

-- The first managed directory that the link lies in.
unfoldable pub managed_dir_of : String → List String → Option String
managed_dir_of target [] = none
managed_dir_of target (dir ∷ dirs) =
    let rest = managed_dir_of target dirs in
    if starts_with target (dir <> "/") then some dir else rest

abbrev check : Bool → String → Result StoreError (Unit {0})
check true message = ok tt
check false message = err (invalid_config message)

abbrev check_unmanaged : String → Option String → Result StoreError (Unit {0})
check_unmanaged app none = ok tt
check_unmanaged app (some dir) = err (
    invalid_config (
      "app "
      <> (app
          <> (" symlink targets "
              <> (dir
                  <> "/ which is managed automatically; use the networkd/, quadlets/, sysusers/, or systemd/ app directory instead")))))

module _ (R : Repository) where
  open R use {State}

  abbrev source_exists : State → Oid → String → Bool
  source_exists s app_tree source = elim (R.get_path s app_tree source) [
    | ok _ ↦ true
    | err _ ↦ false
  ]

  -- One entry of an app's manifest links.
  unfoldable pub check_symlink :
      State
      → String
      → Oid
      → String
      → String
      → BTreeMap String String
      → Result StoreError (BTreeMap String String)
  check_symlink s app app_tree target source owners = do
    check (starts_with target "/")
        ("app " <> (app <> (" symlink target " <> (target <> " is not an absolute path"))))
    check_unmanaged app (managed_dir_of target managed_dirs)
    check (source_exists s app_tree source)
        ("app " <> (app <> (" symlink source " <> (source <> " does not exist in the app tree"))))
    claim "symlink" app target owners

  unfoldable pub check_symlinks :
      State
      → String
      → Oid
      → BTreeMap String String
      → BTreeMap String String
      → Result StoreError (BTreeMap String String)
  check_symlinks s app app_tree [] owners = ok owners
  check_symlinks s app app_tree ((target, source) ∷ links) owners = do
    owners' ← check_symlink s app app_tree target source owners
    check_symlinks s app app_tree links owners'

  -- The body of the loop over the apps.
  unfoldable pub validate_app : State → String → Oid → Owners → Result StoreError Owners
  validate_app s app app_tree o = do
    manifest ← read_manifest R s app_tree
    _ ← find_tree R s app_tree
    networkd_names ← subdir_entries R s app_tree "networkd"
    networkd ← claim_all "networkd config" app (keys networkd_names) o.networkd
    quadlet_names ← subdir_entries R s app_tree "quadlets"
    quadlets ← claim_all "quadlet" app (keys quadlet_names) o.quadlets
    sysuser_names ← subdir_entries R s app_tree "sysusers"
    sysusers ← claim_all "sysuser config" app (keys sysuser_names) o.sysusers
    unit_names ← subdir_entries R s app_tree "systemd"
    units ← claim_all "unit" app (keys unit_names) o.units
    symlinks ← check_symlinks s app app_tree manifest.symlinks o.symlinks
    ok (record {
      networkd = networkd;
      quadlets = quadlets;
      symlinks = symlinks;
      sysusers = sysusers;
      units = units;
    })

  unfoldable pub validate_apps : State → BTreeMap String Oid → Owners → Result StoreError Owners
  validate_apps s [] o = ok o
  validate_apps s ((app, app_tree) ∷ apps) o = do
    o' ← validate_app s app app_tree o
    validate_apps s apps o'

  unfoldable pub validate_app_manifests : State → Tree → Hostname → Result StoreError (Unit {0})
  validate_app_manifests s config_tree host = do
    apps ← get_host_apps R s config_tree host
    _ ← validate_apps s apps no_owners
    ok tt

  -- The loop over the entries of the configuration tree. The name of an entry must be UTF-8.
  unfoldable pub validate_hosts : State → Tree → Tree → Result (Fault StoreError) (Unit {0})
  validate_hosts s config_tree [] = ok tt
  validate_hosts s config_tree (e ∷ es) = elim e.name [
    | none ↦ err (panicked "tree entry name is utf-8")
    | some host ↦ do
      attempt (validate_app_manifests s config_tree host)
      validate_hosts s config_tree es
  ]

  unfoldable pub validate : State → Oid → Result (Fault StoreError) (Unit {0})
  validate s tree_oid = do t ← attempt (find_tree R s tree_oid); validate_hosts s t t
