-- ===== src/Ping/Series.antt =====
-- src/ping.rs: the series of pings to each host. A clock is outside the model: the time that a ping
-- took is an argument, of the connection on which its answer was read.
pub mod Pinged
use deptool.Base.{
  ℕ, zero, suc, ◌<>◌, String, Option, none, some, List, [], ◌∷◌, ◌++◌, Result, ok, err, Fault,
  panicked, attempt,
}
use deptool.Types.{Hostname}
use deptool.Error.{HostError, protocol_error, Error, display_host_error}
use deptool.Protocol.{Message, ping}
use deptool.Store.Repository.{Repository}
use deptool.Io.{Io, pure, fail, lift_reads, try, ◌>>=◌, ◌>>◌}
use deptool.Deploy.Progress.{DeployProgress, outcome, pinging, pinged, failed}
use deptool.Deploy.Connection.{Transport, Driver, DriverIo, update}
use deptool.Deploy.Lock.{try_connect}
use deptool.Ping.{compute}

-- `PING_COUNT`
abbrev pub ping_count : ℕ
ping_count = 150

module _ (R : Repository) (T : Transport) (elapsed : T.Conn → ℕ) where
  abbrev pub unwrapped : {A : Type 0} → Result HostError A → DriverIo R T A
  unwrapped (ok a) = pure a
  unwrapped (err e) = fail (Fault.failed e)

  -- The answer to a ping.
  abbrev pub answered : Option Message → DriverIo R T (Unit {0})
  answered (some Message.pong) = pure tt
  answered other =
      fail (Fault.failed (protocol_error ("unexpected response to Ping: " <> T.debug other)))

  -- The loop of `ping_host`, for a number of pings.
  unfoldable pub ping_loop : ℕ → Hostname → T.Conn → List ℕ → DriverIo R T (List ℕ)
  ping_loop zero host conn samples = pure samples
  ping_loop (suc n) host conn samples = do
    let (asked, conn') = T.send_request ping conn
    unwrapped asked
    let (answer, conn'') = T.read_message conn'
    message ← unwrapped answer
    answered message
    let samples' = samples ++ (elapsed conn'' ∷ [])
    update R T host (pinging (compute samples'))
    ping_loop n host conn'' samples'

  unfoldable pub ping_connected : Hostname → Option T.Conn → DriverIo R T (Unit {0})
  ping_connected host none = pure tt
  ping_connected host (some conn) = do
    samples ← ping_loop ping_count host conn []
    update R T host (pinged (compute samples))

  unfoldable pub ping_host : Hostname → DriverIo R T (Unit {0})
  ping_host host = do conn ← try_connect R T host; ping_connected host conn

  abbrev report : Hostname → Result HostError (Unit {0}) → DriverIo R T (Unit {0})
  report host (ok _) = pure tt
  report host (err e) = update R T host (failed e)

  unfoldable pub ping_all : List Hostname → DriverIo R T (Unit {0})
  ping_all [] = pure tt
  ping_all (host ∷ hosts) = do result ← try (ping_host host); report host result; ping_all hosts

  -- A panic of a thread panics the scope.
  abbrev reported :
      {A : Type 0} → Result (Fault HostError) A × Driver R T → Result (Fault Error) A × Driver R T
  reported (ok a, d) = (ok a, d)
  reported (err (Fault.failed e), d) = (err (panicked (display_host_error e)), d)
  reported (err (panicked m), d) = (err (panicked m), d)

  abbrev in_progress : {A : Type 0} → DriverIo R T A → Io (Driver R T) (Fault Error) A
  in_progress m d = reported (m d)

  unfoldable pub run_ping : List Hostname → Io (Driver R T) (Fault Error) (Unit {0})
  run_ping hosts = do in_progress (ping_all hosts); lift_reads (λ d. attempt (outcome d.progress))
