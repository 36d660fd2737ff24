-- ===== src/Deploy/Explain.antt =====
-- src/error.rs: the long explanations of errors, and src/deploy.rs: `explain_errors`, which groups the
-- failed hosts by them.
pub mod Meaning
pub mod Groups
use Prim.Native.Char.{code}
use deptool.Base.{
  String, ◌<>◌, Option, none, some, List, [], ◌∷◌, ◌==◌, string_ord, nat_eq, if◌then◌else◌,
}
use deptool.BTreeMap.{BTreeMap, get, insert}
use deptool.BTreeMap.Set.{BTreeSet, add}
use deptool.Types.{Hostname}
use deptool.Error.{
  HostError, hostname_mismatch, hostname_changed, setup_checksum_mismatch, setup_missing_binary,
  setup_interrupted, setup_no_checksum, apply_failed, rollback_failed, display_apply_error,
  escape_debug,
}
use deptool.Deploy.Progress.{DeployProgress, HostState, failed}

pub record Explanation : Type 0 where
  pub description : String
  pub item : String

-- `stderr.replace('\n', "\n    ")`
unfoldable pub indent_lines : String → String
indent_lines String.[] = ""
indent_lines (String.◌∷◌ c s) =
    let rest = indent_lines s in if nat_eq (code c) 10 then "\n    " <> rest else String.◌∷◌ c rest

unfoldable pub stderr_item : String → String → String
stderr_item host stderr =
    if stderr == ""
    then "  " <> (host <> ": (the host produced no stderr)")
    else "  " <> (host <> (":\n    " <> indent_lines stderr))

-- The version and the first ten digits of the commit that the operator's binary was built from.
abbrev pub missing_binary : String → String → String
missing_binary version commit =
    "The agent runs on the target host, so Deptool needs a binary for the\n"
    <> ("host's platform, built from the same source as your operator binary\n"
        <> ("(Deptool "
            <> (version
                <> (" at commit "
                    <> (commit
                        <> ("). Build or download such a binary \n"
                            <> ("for each platform below, and place it at the path shown:")))))))

abbrev pub differing_hostname : String
differing_hostname =
    "The host's /etc/hostname differs from the name of the host in the config tree.\n"
    <> ("Out of caution, we don't deploy to hosts when it's not clear that we connected\n"
        <> ("to the intended target. Either change /etc/hostname on the target, or rename\n"
            <> ("the host's directory in the config tree to match.")))

abbrev pub changed_hostname : String
changed_hostname =
    "The host's state was deployed under a different hostname, so the\n"
    <> ("changes a deploy would compute do not match what is actually on the\n"
        <> ("host. This happens when /etc/hostname changes after a deploy. If\n"
            <> ("the rename is intended, delete the store on the host and deploy\n"
                <> ("again; the host is then treated as a fresh install. See 'Renaming\n"
                    <> ("a host' in the manual.")))))

abbrev pub interrupted : String
interrupted =
    "The install session ended before the binary could be verified.\n" <> ("The host's stderr:")

abbrev pub no_checksum : String
no_checksum =
    "The install command finished without reporting the uploaded binary's\n"
    <> ("checksum, so the transfer could not be verified. Usually the remote\n"
        <> ("command failed before it got that far. The host's stderr was:"))

abbrev pub wrong_checksum : String
wrong_checksum =
    "After installing the deptool binary, the host's sha256 of the\n"
    <> ("file on disk did not match the sha256 of what we uploaded.")

abbrev pub failed_apply : String
failed_apply =
    "Apply failed and we did not roll back because the changes were not\n"
    <> ("rollback-safe. The host is partially modified:")

abbrev pub failed_rollback : String
failed_rollback =
    "Apply failed and the rollback we attempted also failed. The host is\n"
    <> ("partially modified:")

abbrev deployed_name : String → Option Hostname → String
deployed_name host (some name) = "  " <> (host <> (": deployed as '" <> (name <> "'")))
deployed_name host none = "  " <> (host <> ": deployed under an unknown name")

module _ (version commit : String) where
  -- `HostError::explain`
  unfoldable pub explain : HostError → String → Option Explanation
  explain (setup_missing_binary platform path) host = some (record {
    description = missing_binary version commit;
    item = "  " <> (platform <> (": " <> path));
  })
  explain (hostname_mismatch actual) host = some (record {
    description = differing_hostname;
    item = "  " <> (host <> (": /etc/hostname contains \"" <> (escape_debug actual <> "\"")));
  })
  explain (hostname_changed deployed_as) host =
      some (record { description = changed_hostname; item = deployed_name host deployed_as })
  explain (setup_interrupted stderr) host =
      some (record { description = interrupted; item = stderr_item host stderr })
  explain (setup_no_checksum stderr) host =
      some (record { description = no_checksum; item = stderr_item host stderr })
  explain (setup_checksum_mismatch expected_hash actual_hash) host = some (record {
    description = wrong_checksum;
    item = "  " <> (host <> (": expected " <> (expected_hash <> (", got " <> actual_hash))));
  })
  explain (apply_failed apply_error) host = some (record {
    description = failed_apply;
    item = "  " <> (host <> (": " <> display_apply_error apply_error));
  })
  explain (rollback_failed apply_error rollback_error) host = some (record {
    description = failed_rollback;
    item =
        "  "
        <> (host
            <> (":\n    apply: "
                <> (display_apply_error apply_error
                    <> ("\n    rollback: " <> display_apply_error rollback_error))));
  })
  explain _ host = none

  unfoldable pub explain_state : HostState → String → Option Explanation
  explain_state (failed e) host = explain e host
  explain_state _ host = none

  abbrev pub group_of : Option (BTreeSet String) → BTreeSet String
  group_of none = []
  group_of (some items) = items

  -- `groups.entry(description).or_insert(BTreeSet::new()).insert(item)`
  unfoldable pub note :
      Option Explanation → BTreeMap String (BTreeSet String) → BTreeMap String (BTreeSet String)
  note none groups = groups
  note (some e) groups =
      insert e.description (add e.item (group_of (get e.description groups))) groups

  unfoldable pub explain_loop :
      BTreeMap Hostname HostState
      → BTreeMap String (BTreeSet String)
      → BTreeMap String (BTreeSet String)
  explain_loop [] groups = groups
  explain_loop ((host, state) ∷ states) groups =
      explain_loop states (note (explain_state state host) groups)

  unfoldable pub explain_errors : DeployProgress → BTreeMap String (BTreeSet String)
  explain_errors p = explain_loop p.states []
