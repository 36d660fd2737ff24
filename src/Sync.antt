-- ===== src/Sync.antt =====
-- src/sync.rs: which hosts a sync contacts, and how a stale host's tracking reference is brought to
-- what the host has. The configuration tree that `build_tree` makes of a directory is an argument.
pub mod Selection
use deptool.Base.{
  ◌<>◌, Bool, true, not, Option, none, some, List, [], ◌∷◌, ◌++◌, Result, ok, err, Fault, panicked,
  attempt, map_err, string_ord, ◌==◌, if◌then◌else◌, ◌>>=◌ as and_then,
}
use deptool.BTreeMap.{BTreeMap, get, insert, keys}
use deptool.Types.{Oid, Hostname}
use deptool.Error.{Error, HostError, display_host_error, store_err, pre_apply, protocol_error}
use deptool.Protocol.{request_objects, Message}
use deptool.Store.Repository.{Repository, GitError, git_err}
use deptool.Store.Refs.{HostRef, fetch_stale, host_tracking_refs, tracking_ref, delete_ref, set_ref}
use deptool.Store.Trees.{host_trees}
use deptool.Io.{Io, pure, fail, reads, try, ◌>>=◌, ◌>>◌}
use deptool.Plan.Filter.{HostFilter, apply}
use deptool.Agent.Lock.{same_commit}
use deptool.Deploy.Progress.{up_to_date, stale, updated, failed, outcome}
use deptool.Deploy.Connection.{Transport, Driver, DriverIo, update, change_store}
use deptool.Deploy.Lock.{StaleHost, try_connect}

pub data SyncMode : Type 0 where
  all_hosts only_changed : SyncMode

-- Whether the host is contacted, from its tracking reference and its tree.
abbrev pub needs_sync : SyncMode → Option HostRef → Oid → Bool
needs_sync all_hosts host_ref host_tree = true
needs_sync only_changed none host_tree = true
needs_sync only_changed (some hr) host_tree = not (hr.host_tree == host_tree)

abbrev pub tracked_commit : Option HostRef → Option Oid
tracked_commit none = none
tracked_commit (some hr) = some hr.commit

unfoldable pub select_loop :
    SyncMode
    → BTreeMap Hostname HostRef
    → BTreeMap Hostname Oid
    → BTreeMap Hostname (Option Oid)
    → BTreeMap Hostname (Option Oid)
select_loop mode host_refs [] to_sync = to_sync
select_loop mode host_refs ((host, host_tree) ∷ hosts) to_sync = select_loop mode host_refs hosts (
    if needs_sync mode (get host host_refs) host_tree
    then insert host (tracked_commit (get host host_refs)) to_sync
    else to_sync)

module _ (R : Repository) where
  unfoldable pub select_hosts_to_sync :
      R.State → Oid → SyncMode → HostFilter → Result Error (BTreeMap Hostname (Option Oid))
  unfolding select_loop
  select_hosts_to_sync s tree_oid mode filter =
      and_then (map_err store_err (host_trees R s tree_oid)) λ all_hosts.
        and_then (apply filter all_hosts) λ config_hosts.
          and_then (map_err store_err (host_tracking_refs R s (keys config_hosts)))
            λ host_refs. ok (select_loop mode host_refs config_hosts [])

module _ (R : Repository) (T : Transport) where
  abbrev unwrapped : {A : Type 0} → Result HostError A → DriverIo R T A
  unwrapped (ok a) = pure a
  unwrapped (err e) = fail (Fault.failed e)

  -- The answer to the request for objects, whose pack is written.
  abbrev received : Option Message → DriverIo R T (Unit {0})
  received (some (Message.send_pack pack_data)) =
      change_store R T (λ s. git_err (R.write_pack s pack_data))
  received (some (Message.error_pre_apply apply_err)) = fail (Fault.failed (pre_apply apply_err))
  received answer =
      fail (
        Fault.failed (protocol_error ("unexpected response to RequestObjects: " <> T.debug answer)))

  unfoldable pub fetch_objects : Option Oid → T.Conn → DriverIo R T (Unit {0})
  fetch_objects have_commit conn =
      let (sent, conn') = T.send_request (request_objects have_commit) conn in
      let (answer, _) = T.read_message conn' in unwrapped sent >> (unwrapped answer >>= received)

  abbrev unless_known :
      {A : Type 0} → Result GitError A → DriverIo R T (Unit {0}) → DriverIo R T (Unit {0})
  unless_known (ok _) fetch = pure tt
  unless_known (err _) fetch = fetch

  -- A host without a commit loses its reference; any other one is fetched if it is not known, and
  -- its reference is set.
  unfoldable pub fetch_actual :
      Hostname → Option Oid → Option Oid → T.Conn → DriverIo R T (Unit {0})
  fetch_actual host expected none conn = change_store R T (λ s. delete_ref R s (tracking_ref host))
  fetch_actual host expected (some actual_commit) conn = do
    known ← reads (λ d. R.find_commit d.store actual_commit)
    unless_known known (fetch_objects expected conn)
    change_store R T (λ s. set_ref R s (tracking_ref host) actual_commit fetch_stale)

  unfoldable pub fetch_from_stale_host : Hostname → StaleHost R T → DriverIo R T (Unit {0})
  fetch_from_stale_host host info =
      fetch_actual host info.expected_commit info.actual_commit info.connection

  abbrev report :
      Hostname
      → (Unit {0} → DriverIo R T (Unit {0}))
      → Result HostError (Unit {0})
      → DriverIo R T (Unit {0})
  report host done (ok u) = done u
  report host done (err e) = update R T host (failed e)

  unfoldable pub fetch_stale_objects : BTreeMap Hostname (StaleHost R T) → DriverIo R T (Unit {0})
  fetch_stale_objects [] = pure tt
  fetch_stale_objects ((host, info) ∷ hosts) = do
    result ← try (fetch_from_stale_host host info)
    report host (λ _. pure tt) result
    fetch_stale_objects hosts

  -- One host of a sync: its connection is kept if it is stale.
  abbrev compared :
      Hostname
      → Option Oid
      → List (Hostname × StaleHost R T)
      → Option T.Conn
      → DriverIo R T (List (Hostname × StaleHost R T))
  compared host expected found none = pure found
  compared host expected found (some conn) =
      let actual = (T.hello conn).current_commit in
      if same_commit actual expected
      then update R T host up_to_date >> pure found
      else update R T host stale
        >> pure (
            found
            ++ ((
              host,
              record { expected_commit = expected; actual_commit = actual; connection = conn },
            )
                ∷ []))

  unfoldable pub find_stale :
      BTreeMap Hostname (Option Oid)
      → List (Hostname × StaleHost R T)
      → DriverIo R T (List (Hostname × StaleHost R T))
  find_stale [] found = pure found
  find_stale ((host, expected) ∷ hosts) found = do
    conn ← try_connect R T host
    found' ← compared host expected found conn
    find_stale hosts found'

  unfoldable pub update_stale : List (Hostname × StaleHost R T) → DriverIo R T (Unit {0})
  update_stale [] = pure tt
  update_stale ((host, info) ∷ hosts) = do
    result ← try (fetch_from_stale_host host info)
    report host (λ _. update R T host updated) result
    update_stale hosts

  -- `run_sync` up to its outcome.
  unfoldable pub sync_hosts : BTreeMap Hostname (Option Oid) → DriverIo R T (Unit {0})
  sync_hosts hosts = do found ← find_stale hosts []; update_stale found

  abbrev finished :
      Driver R T
      → Result (Fault HostError) (Unit {0}) × Driver R T
      → Result (Fault Error) (Unit {0}) × Driver R T
  finished d (ok _, d') = (attempt (outcome d'.progress), d')
  finished d (err (Fault.failed e), d') = (err (panicked (display_host_error e)), d')
  finished d (err (panicked m), d') = (err (panicked m), d')

  -- Every error of a host is reported in the progress, so only the outcome is returned.
  unfoldable pub run_sync :
      BTreeMap Hostname (Option Oid) → Io (Driver R T) (Fault Error) (Unit {0})
  run_sync hosts d = finished d (sync_hosts hosts d)
