-- ===== src/Deploy/Connection.antt =====
-- src/deploy.rs and src/setup.rs: `trait Connection` and `trait HostConnector`, which reach the agents
-- over SSH, as an interface, and the state of the driver.
use deptool.Base.{String, Option, List, Result, ok, err, Fault, failed, panicked, Bool, true, false}
use deptool.Types.{Hostname}
use deptool.Error.{HostError, StoreError, store_error}
use deptool.Protocol.{Hello, Request, Message}
use deptool.Store.Repository.{Repository}
use deptool.Io.{Io, fail, pure}
use deptool.Deploy.Progress.{DeployProgress, HostState, update_progress}

pub record Transport : Type 1 where
  pub Conn : Type 0
  pub World : Type 0
  pub connect : Hostname → World → Result HostError Conn × World
  pub install : Hostname → World → Result HostError (Unit {0}) × World
  pub hello : Conn → Hello
  pub send_request : Request → Conn → Result HostError (Unit {0}) × Conn
  pub read_message : Conn → Result HostError (Option Message) × Conn
  pub close : Conn → Conn
  -- what `read_message` returns from now on if nothing more is sent, up to the end of the stream
  pub rest : Conn → List (Result HostError Message)
  -- `protocol::VERSION` and `BUILD_COMMIT`, which the build fixes, and a message as `{:?}` prints it
  pub version : String
  pub build_commit : String
  pub debug : Option Message → String

module _ (R : Repository) (T : Transport) where
  pub record Driver : Type 0 where
    pub store : R.State
    pub world : T.World
    pub progress : DeployProgress

  -- An operation that returns a `Result<T, HostError>` and may panic.
  abbrev pub DriverIo : Type 0 → Type 0
  DriverIo A = Io Driver (Fault HostError) A

  abbrev updated :
      Driver
      → Result (Fault HostError) DeployProgress
      → Result (Fault HostError) (Unit {0}) × Driver
  updated d (ok p) = (ok tt, record d { progress = p })
  updated d (err e) = (err e, d)

  -- `progress.update(host, state)`
  unfoldable pub update : Hostname → HostState → DriverIo (Unit {0})
  update host to d = updated d (update_progress host to d.progress)

  abbrev in_world :
      {A : Type 0}
      → Driver
      → Result HostError A × T.World
      → Result (Fault HostError) (Result HostError A) × Driver
  in_world d (r, w) = (ok r, record d { world = w })

  -- An operation of the connector, whose result the caller inspects.
  unfoldable pub on_world :
      {A : Type 0} → (T.World → Result HostError A × T.World) → DriverIo (Result HostError A)
  on_world f d = in_world d (f d.world)

  abbrev stored : Driver → Result StoreError R.State → Result (Fault HostError) (Unit {0}) × Driver
  stored d (ok s) = (ok tt, record d { store = s })
  stored d (err e) = (err (failed (store_error e)), d)

  -- A change of the driver's store, under `?`.
  unfoldable pub change_store : (R.State → Result StoreError R.State) → DriverIo (Unit {0})
  change_store f d = stored d (f d.store)

  abbrev pub require : Bool → String → DriverIo (Unit {0})
  require true message = pure tt
  require false message = fail (panicked message)
