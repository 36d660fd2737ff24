-- ===== src/Deploy/Lock.antt =====
-- src/deploy.rs: connecting to the hosts and locking them. The threads of the source share only the
-- progress and the two maps, each host its own entry; here the hosts are taken in order.
use deptool.Base.{
  String, ◌<>◌, Option, none, some, [], ◌∷◌, Result, ok, err, string_ord, ◌==◌, if◌then◌else◌,
}
use deptool.BTreeMap.{BTreeMap, insert}
use deptool.Types.{Oid, Hostname}
use deptool.Error.{
  HostError, agent_not_installed, hostname_mismatch, hostname_changed, protocol_error,
}
use deptool.Protocol.{lock, Message}
use deptool.Store.Repository.{Repository}
use deptool.Io.{pure, ◌>>=◌, ◌>>◌}
use deptool.Deploy.Progress.{
  connecting, installing_agent, connected, locked, stale, lock_busy, failed,
}
use deptool.Deploy.Connection.{Transport, DriverIo, update, on_world, require}

module _ (R : Repository) (T : Transport) where
  -- The host failed, and has no connection.
  abbrev give_up : Hostname → HostError → DriverIo R T (Option T.Conn)
  give_up host e = update R T host (failed e) >> pure none

  -- What follows once the agent has sent its hello.
  unfoldable pub greet : Hostname → T.Conn → DriverIo R T (Option T.Conn)
  greet host conn = do
    require R T ((T.hello conn).version == T.version) "agent version matches operator version"
    require R T ((T.hello conn).build_commit == T.build_commit)
        "agent build commit matches operator build commit"
    if (T.hello conn).hostname == host
        then update R T host connected >> pure (some conn)
        else give_up host (hostname_mismatch (T.hello conn).hostname)

  abbrev connected_again : Hostname → Result HostError T.Conn → DriverIo R T (Option T.Conn)
  connected_again host (ok conn) = greet host conn
  connected_again host (err e) = give_up host e

  abbrev installed : Hostname → Result HostError (Unit {0}) → DriverIo R T (Option T.Conn)
  installed host (err e) = give_up host e
  installed host (ok _) = do conn ← on_world R T (T.connect host); connected_again host conn

  -- What follows the first attempt, which installs the agent if it is missing.
  unfoldable pub first_attempt : Hostname → Result HostError T.Conn → DriverIo R T (Option T.Conn)
  first_attempt host (ok conn) = greet host conn
  first_attempt host (err (agent_not_installed _)) = do
    update R T host installing_agent
    done ← on_world R T (T.install host)
    installed host done
  first_attempt host (err e) = give_up host e

  unfoldable pub try_connect : Hostname → DriverIo R T (Option T.Conn)
  try_connect host = do
    update R T host connecting
    conn ← on_world R T (T.connect host)
    first_attempt host conn

  pub record StaleHost : Type 0 where
    pub expected_commit : Option Oid
    pub actual_commit : Option Oid
    pub connection : T.Conn

  pub record LockResult : Type 0 where
    pub locked : BTreeMap Hostname T.Conn
    pub stale : BTreeMap Hostname StaleHost

  -- The answer to the lock request.
  unfoldable pub lock_answer :
      Hostname → T.Conn → LockResult → Result HostError (Option Message) → DriverIo R T LockResult
  lock_answer host conn result (ok (some Message.locked)) = do
    update R T host locked
    pure (record result { locked = insert host conn result.locked })
  lock_answer host conn result (ok (some (Message.lock_stale expected actual))) = do
    update R T host stale
    pure (record result {
      stale =
          insert host
            (record { expected_commit = expected; actual_commit = actual; connection = conn })
            result.stale;
    })
  lock_answer host conn result (ok (some (Message.lock_busy held_by))) =
      update R T host (lock_busy held_by) >> pure result
  lock_answer host conn result (ok (some (Message.lock_hostname_changed deployed_as))) =
      update R T host (failed (hostname_changed deployed_as)) >> pure result
  lock_answer host conn result (ok answer) =
      update R T host (failed (protocol_error ("unexpected lock response: " <> T.debug answer)))
      >> pure result
  lock_answer host conn result (err e) = update R T host (failed e) >> pure result

  -- The request is sent, and its answer is read if that succeeded.
  abbrev exchanged :
      Result HostError (Unit {0}) × T.Conn → Result HostError (Option Message) × T.Conn
  exchanged (ok _, conn) = T.read_message conn
  exchanged (err e, conn) = (err e, conn)

  abbrev lock_connected :
      Hostname → Option Oid → String → LockResult → Option T.Conn → DriverIo R T LockResult
  lock_connected host expected_current operator result none = pure result
  lock_connected host expected_current operator result (some conn) =
      let (answer, conn') = exchanged (T.send_request (lock expected_current operator) conn) in
      lock_answer host conn' result answer

  unfoldable pub lock_hosts :
      BTreeMap Hostname (Option Oid) → String → LockResult → DriverIo R T LockResult
  lock_hosts [] operator result = pure result
  lock_hosts ((host, expected_current) ∷ hosts) operator result = do
    conn ← try_connect host
    result' ← lock_connected host expected_current operator result conn
    lock_hosts hosts operator result'

  unfoldable pub connect_and_lock :
      BTreeMap Hostname (Option Oid) → String → DriverIo R T LockResult
  connect_and_lock hosts operator = lock_hosts hosts operator (record { locked = []; stale = [] })
