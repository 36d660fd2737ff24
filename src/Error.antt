-- ===== src/Error.antt =====
-- src/error.rs: the error types and their texts. An error of libgit2, of serde_json or of the
-- operating system is the text that it displays, which is all that the code reads of it.
use Prim.Native.Char.{code}
use deptool.Base.{String, ◌<>◌, Option, none, some, List, ◌==◌, string_ord, nat_eq, if◌then◌else◌}
use deptool.Types.{Hostname, PathBuf, join_texts}

pub data StoreError : Type 0 where
  not_found : PathBuf → StoreError
  git : String → StoreError
  io : String → StoreError
  json : String → StoreError
  non_utf8_file_name : StoreError
  invalid_config : String → StoreError

unfoldable pub display_store_error : StoreError → String
display_store_error (not_found path) =
    "no store at '" <> (path <> "'; run 'deptool init' to create one")
display_store_error (git e) = e
display_store_error (io e) = e
display_store_error (json e) = e
display_store_error non_utf8_file_name = "non-utf8 file name"
display_store_error (invalid_config msg) = "invalid config: " <> msg

pub data ApplyError : Type 0 where
  checkout_failed : String → String → ApplyError
  reconcile_failed : String → String → ApplyError
  symlink_failed : String → String → ApplyError
  remove_failed : String → String → ApplyError
  systemd_activation_failed : List String → ApplyError
  systemd_status_unreadable : String → ApplyError
  networkd_reload_failed : ApplyError
  sysusers_activation_failed : ApplyError
  store : String → ApplyError
  io : String → ApplyError

-- `impl From<StoreError> for ApplyError`
unfoldable pub apply_error_of_store : StoreError → ApplyError
unfolding display_store_error
apply_error_of_store e = store (display_store_error e)

-- `{output:?}` of a text of printable characters and the usual control characters.
pub escape_debug : String → String
escape_debug String.[] = ""
escape_debug (String.◌∷◌ c s) =
    let rest = escape_debug s in
    if nat_eq (code c) 34
    then "\\\"" <> rest
    else if nat_eq (code c) 92
    then "\\\\" <> rest
    else if nat_eq (code c) 10
    then "\\n" <> rest
    else if nat_eq (code c) 13
    then "\\r" <> rest
    else if nat_eq (code c) 9
    then "\\t" <> rest
    else if nat_eq (code c) 0
    then "\\0" <> rest
    else String.◌∷◌ c rest

unfoldable pub display_apply_error : ApplyError → String
unfolding escape_debug join_texts
display_apply_error (checkout_failed app cause) =
    "failed to check out app " <> (app <> (": " <> cause))
display_apply_error (reconcile_failed subject cause) =
    "failed to update " <> (subject <> (": " <> cause))
display_apply_error (symlink_failed link cause) =
    "failed to create symlink at " <> (link <> (": " <> cause))
display_apply_error (remove_failed path cause) = "failed to remove " <> (path <> (": " <> cause))
display_apply_error (systemd_activation_failed units) =
    "units failed to become active: " <> join_texts ", " units
display_apply_error (systemd_status_unreadable output) =
    "unexpected systemctl show output: \"" <> (escape_debug output <> "\"")
display_apply_error networkd_reload_failed = "networkctl failed to reload networkd configs"
display_apply_error sysusers_activation_failed = "systemd-sysusers failed to create system users"
display_apply_error (store msg) = msg
display_apply_error (io msg) = msg

pub data HostError : Type 0 where
  connection_failed : String → HostError
  agent_not_installed : String → HostError
  hostname_mismatch : String → HostError
  hostname_changed : Option Hostname → HostError
  setup_checksum_mismatch : String → String → HostError
  setup_missing_binary : String → PathBuf → HostError
  setup_read_error : PathBuf → String → HostError
  setup_interrupted : String → HostError
  setup_no_checksum : String → HostError
  incomplete_deploy : HostError
  protocol_error : String → HostError
  store_error : StoreError → HostError
  pre_apply : ApplyError → HostError
  apply_failed : ApplyError → HostError
  rollback_failed : ApplyError → ApplyError → HostError

unfoldable pub display_host_error : HostError → String
unfolding display_store_error display_apply_error
display_host_error (connection_failed msg) = msg
display_host_error (agent_not_installed stderr) =
    if stderr == ""
    then "binary not installed on target host"
    else "binary not installed on target host, or exited before hello: " <> stderr
display_host_error (hostname_mismatch _) = "hostname mismatch"
display_host_error (hostname_changed (some name)) =
    "encountered previous deployment as '" <> (name <> "'")
display_host_error (hostname_changed none) = "encountered previous deployment as different host"
display_host_error (setup_checksum_mismatch _ _) = "binary checksum mismatch"
display_host_error (setup_missing_binary platform _) =
    "unable to deploy to " <> (platform <> ", no binary for this platform")
display_host_error (setup_read_error path cause) = "failed to read '" <> (path <> ("': " <> cause))
display_host_error (setup_interrupted _) = "install interrupted before the binary was verified"
display_host_error (setup_no_checksum _) = "install incomplete: no checksum from host"
display_host_error incomplete_deploy =
    "an earlier deploy did not complete, run 'deptool deploy' first"
display_host_error (protocol_error msg) = "protocol error: " <> msg
display_host_error (store_error e) = display_store_error e
display_host_error (pre_apply e) = display_apply_error e
display_host_error (apply_failed _) = "error during apply"
display_host_error (rollback_failed _ _) = "error during apply, rollback failed"

pub data Error : Type 0 where
  store_err : StoreError → Error
  io_err : String → Error
  json_err : String → Error
  no_default_cluster : Error
  cluster_not_found : PathBuf → Error
  default_cluster_not_found : PathBuf → Error
  unknown_hosts : List Hostname → Error
  empty_limit : Error
  unsynced_hosts : List Hostname → Error
  deploy_failed : String → Error
