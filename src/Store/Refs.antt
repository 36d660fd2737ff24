-- ===== src/Store/Refs.antt =====
-- src/store.rs: references, the configuration keys, and the host's tracking references.
pub mod Tracked
use deptool.Base.{
  String, ◌<>◌, Option, none, some, List, [], ◌∷◌, Result, ok, err, ◌>>=◌, if◌then◌else◌,
  string_ord,
}
use deptool.BTreeMap.{BTreeMap, insert}
use deptool.Types.{Oid, Hostname}
use deptool.Error.{StoreError, git}
use deptool.Store.Repository.{TreeEntry, Repository, Tree, git_err, get_name}

pub data RefUpdate : Type 0 where
  set_target : String → RefUpdate
  set_current : String → RefUpdate
  rollback : String → RefUpdate
  apply_complete fetch_stale set_main : RefUpdate

unfoldable pub reflog_msg : RefUpdate → String
reflog_msg (set_target operator) = "deploy by " <> (operator <> ": set target")
reflog_msg (set_current operator) = "deploy by " <> (operator <> ": set current")
reflog_msg (rollback operator) = "deploy by " <> (operator <> ": rollback after failed apply")
reflog_msg apply_complete = "deploy: host applied, update tracking ref"
reflog_msg fetch_stale = "deploy: fetched stale commit from host"
reflog_msg set_main = "deploy: lock acquired, deploying this commit"

-- `refs/remotes/{host}`
unfoldable pub tracking_ref : Hostname → String
tracking_ref host = "refs/remotes/" <> host

pub record HostRef : Type 0 where
  pub commit : Oid
  pub host_tree : Oid

-- A host with no entry in the tree is skipped.
abbrev pub note_entry :
    Hostname → Oid → Option TreeEntry → BTreeMap Hostname HostRef → BTreeMap Hostname HostRef
note_entry host commit none result = result
note_entry host commit (some entry) result =
    insert host (record { commit = commit; host_tree = entry.id }) result

module _ (R : Repository) where
  open R use {State}

  unfoldable pub set_ref : State → String → Oid → RefUpdate → Result StoreError State
  set_ref s refname oid reason = git_err (R.reference s refname oid (reflog_msg reason))

  -- A missing reference is no error.
  unfoldable pub delete_ref : State → String → Result StoreError State
  delete_ref s refname = elim (R.find_reference s refname) [
    | ok _ ↦ git_err (R.delete_reference s refname)
    | err e ↦ if e.is_not_found then ok s else err (git e.message)
  ]

  unfoldable pub ref_commit : State → String → Option Oid
  ref_commit s refname = elim (R.find_reference s refname) [ ok oid ↦ some oid | err _ ↦ none ]

  unfoldable pub current_commit : State → Option Oid
  current_commit s = ref_commit s "refs/heads/current"

  unfoldable pub target_commit : State → Option Oid
  target_commit s = ref_commit s "refs/heads/target"

  unfoldable pub get_config_string : State → String → Result StoreError (Option String)
  get_config_string s key = elim (R.config_get_string s key) [
    | ok v ↦ ok (some v)
    | err e ↦ if e.is_not_found then ok none else err (git e.message)
  ]

  unfoldable pub get_deployed_hostname : State → Result StoreError (Option Hostname)
  get_deployed_hostname s = get_config_string s "deptool.hostname"

  unfoldable pub set_deployed_hostname : State → Hostname → Result StoreError State
  set_deployed_hostname s hostname = git_err (R.config_set_string s "deptool.hostname" hostname)

  unfoldable pub get_commit_tree : State → Oid → Result StoreError Tree
  get_commit_tree s oid = git_err (do c ← R.find_commit s oid; R.find_tree s c.tree_id)

  -- The loop of `host_tracking_refs`; a host with no reference, or with no entry in the tree of
  -- its commit, is skipped.
  unfoldable pub tracking_loop :
      State
      → List Hostname
      → BTreeMap Hostname HostRef
      → Result StoreError (BTreeMap Hostname HostRef)
  tracking_loop s [] result = ok result
  tracking_loop s (host ∷ hosts) result = elim (R.find_reference s (tracking_ref host)) [
    | err _ ↦ tracking_loop s hosts result
    | ok commit ↦ do
      tree ← get_commit_tree s commit
      tracking_loop s hosts (note_entry host commit (get_name tree host) result)
  ]

  unfoldable pub host_tracking_refs :
      State → List Hostname → Result StoreError (BTreeMap Hostname HostRef)
  unfolding tracking_loop
  host_tracking_refs s hosts = tracking_loop s hosts []
