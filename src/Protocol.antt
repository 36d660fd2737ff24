-- ===== src/Protocol.antt =====
-- src/protocol.rs: what driver and agent say to one another. A packfile travels in base64.
use deptool.Base.{String, Bool, Option, List}
use deptool.Types.{Oid, Hostname}
use deptool.Error.{ApplyError}

pub data ApplyMode : Type 0 where
  deploy : Bool → ApplyMode
  reapply : ApplyMode

pub data Request : Type 0 where
  ping : Request
  lock : Option Oid → String → Request
  receive_pack : String → Request
  request_objects : Option Oid → Request
  apply : Oid → ApplyMode → Request

pub record Hello : Type 0 where
  pub version : String
  pub build_commit : String
  pub hostname : String
  pub current_commit : Option Oid
  pub target_commit : Option Oid

pub data Message : Type 0 where
  pong locked pack_received : Message
  lock_stale : Option Oid → Option Oid → Message
  lock_busy : Option String → Message
  lock_hostname_changed : Option Hostname → Message
  waiting_for_units : List String → Message
  systemd_unit_status : String → Message
  networkd_output : String → Message
  sysusers_output : String → Message
  -- the commit, then the units that were enabled, restarted and disabled
  apply_complete : Oid → List String → List String → List String → Message
  send_pack : String → Message
  rolling_back : Message
  rolled_back : ApplyError → Message
  apply_failed : ApplyError → Message
  rollback_failed : ApplyError → ApplyError → Message
  error_pre_apply : ApplyError → Message
