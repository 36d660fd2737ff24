-- ===== src/Tests/Numbers.antt =====
-- The theorems on pings, on the subject of a deploy commit, and on the reports of a deploy, at concrete
-- inputs.
use deptool.Base.{
  ◌↔◌, refl, string_ord, length, suc, none, ◌≡◌, ℕ, true, String, some, List, [], ◌∷◌, arith, ok,
  ◌≤◌,
}
use Prim.Native.String.{len}
use deptool.Ping.{compute}
use deptool.Ping.Series.{ping_count, ping_loop, ping_connected}
use deptool.Ping.Series.Pinged.{ping_connected-pinged}
use deptool.Protocol.{Message}
use deptool.BTreeMap.{get}
use deptool.Deploy.Connection.{Transport, Driver, update}
use deptool.Tests.MemoryRepository.{memory_repository, example}
use deptool.Ping.Percentile.{AreStats, compute-AreStats}
use deptool.Deploy.Progress.{DeployProgress, HostState}
use deptool.Deploy.Explain.{explain_errors, differing_hostname}
use deptool.Deploy.Explain.Groups.{holds, holds-explain_errors}
use deptool.Deploy.Explain.Meaning.{SomeHostFailed}
use deptool.Plan.Changes.{SystemDiff, add, no_subdir_changes, no_unit_actions}
use deptool.Plan.Make.{DraftPlan}
use deptool.Plan.Subject.{subject, subject_budget}
use deptool.Plan.Subject.Budget.{subject-fits}
use deptool.Error.{HostError}

abbrev samples : List ℕ
samples = 12 ∷ 7 ∷ 9 ∷ 31 ∷ []

compute-AreStats_example : AreStats samples (compute samples)
compute-AreStats_example = compute-AreStats samples

abbrev no_changes : SystemDiff String
no_changes = record {
  networkd = no_subdir_changes;
  quadlets = no_subdir_changes;
  symlinks = record { create = []; remove = []; change = [] };
  sysusers = no_subdir_changes;
  units = no_subdir_changes;
  unit_actions = no_unit_actions;
}

abbrev draft : DraftPlan
draft = record {
  hosts =
      (
        "web",
        record {
          apps = ("app", record { diff = add "a1"; system = no_changes }) ∷ [];
          expected_current = some "c0";
          is_rollback_safe = true;
        },
      )
      ∷ [];
  tree_oid = "t1";
  parents = "c0" ∷ [];
}

subject-fits_example : (s : String) × (subject draft ≡ ok s) × (len s ≤ subject_budget)
unfolding deptool.BTreeMap.Set.collect deptool.Plan.Subject.changed_apps deptool.BTreeMap.insert
subject-fits_example = subject-fits draft (omega arith) (omega arith)

abbrev progress : DeployProgress
progress = record {
  states =
      ("db", HostState.failed (HostError.hostname_mismatch "web")) ∷ ("web", HostState.done) ∷ [];
  log = [];
}

holds-explain_errors_example :
    (holds "1.0" "0123456789ab" differing_hostname "  db: /etc/hostname contains \"web\""
        (explain_errors "1.0" "0123456789ab" progress)
      ≡ true)
    ↔ SomeHostFailed "1.0" "0123456789ab" progress.states differing_hostname
        "  db: /etc/hostname contains \"web\""
holds-explain_errors_example =
    holds-explain_errors "1.0" "0123456789ab" differing_hostname
      "  db: /etc/hostname contains \"web\"" progress

-- A host that answers every ping.
abbrev pinging_transport : Transport
pinging_transport = record {
  Conn = ℕ;
  World = Unit {0};
  connect = λ host w. (ok 0, w);
  install = λ host w. (ok tt, w);
  hello = λ c. record {
    version = "1.0";
    build_commit = "b";
    hostname = "web";
    current_commit = none;
    target_commit = none;
  };
  send_request = λ request c. (ok tt, suc c);
  read_message = λ c. (ok (some Message.pong), c);
  close = λ c. c;
  rest = λ c. [];
  version = "1.0";
  build_commit = "b";
  debug = λ m. "";
}

abbrev driver : Driver memory_repository pinging_transport
driver = record {
  store = example;
  world = tt;
  progress = record { states = ("web", HostState.connected) ∷ []; log = [] };
}

test_answers :
    (ping_connected memory_repository pinging_transport (λ c. c) "web" (some 0) driver).0 ≡ ok tt
unfolding ping_connected ping_loop update deptool.Io.◌>>=◌ deptool.Io.pure
    deptool.Deploy.Progress.update_progress get deptool.BTreeMap.insert
test_answers = refl

ping_connected-pinged_example :
    (rtts : List ℕ) × (length rtts ≡ ping_count)
    × (get "web"
          (ping_connected memory_repository pinging_transport
            (λ c. c)
            "web"
            (some 0)
            driver).1.progress.states
        ≡ some (HostState.pinged (compute rtts)))
ping_connected-pinged_example =
    ping_connected-pinged memory_repository pinging_transport (λ c. c) "web" 0 driver test_answers
