-- ===== src/Deploy/Progress.antt =====
-- src/deploy.rs: the state of each host during a deploy, a sync or a ping, and the outcome. What the
-- observer is told is the list of its log messages; the states are the map itself.
pub mod Digits
use deptool.Base.{
  String, ◌<>◌, ℕ, zero, suc, ◌/◌, ◌%◌, ltb, nat_eq, if◌then◌else◌, Bool, true, false, Option, none,
  some, List, [], ◌∷◌, ◌++◌, Result, ok, err, Fault, panicked, length, filter, string_ord,
}
use deptool.BTreeMap.{BTreeMap, get, insert, values}
use deptool.Types.{Hostname}
use deptool.Error.{ApplyError, HostError, Error, deploy_failed}

-- src/ping.rs: the durations in nanoseconds.
pub record PingStats : Type 0 where
  pub count : ℕ
  pub min : Option ℕ
  pub p50 : Option ℕ
  pub p95 : Option ℕ

pub data HostState : Type 0 where
  waiting connecting installing_agent connected locked pushing applying : HostState
  waiting_for_units : List String → HostState
  rolling_back done up_to_date updated : HostState
  pinging : PingStats → HostState
  pinged : PingStats → HostState
  stale : HostState
  lock_busy : Option String → HostState
  rolled_back : ApplyError → HostState
  failed : HostError → HostState

unfoldable pub is_failure : HostState → Bool
is_failure stale = true
is_failure (lock_busy _) = true
is_failure (rolled_back _) = true
is_failure (failed _) = true
is_failure _ = false

pub record DeployProgress : Type 0 where
  pub states : BTreeMap Hostname HostState
  pub log : List (Hostname × String)

-- `DeployProgress::new`
unfoldable pub all_waiting : List Hostname → BTreeMap Hostname HostState
all_waiting [] = []
all_waiting (host ∷ hosts) = insert host waiting (all_waiting hosts)

unfoldable pub set_state :
    Option HostState
    → Hostname
    → HostState
    → DeployProgress
    → Result (Fault HostError) DeployProgress
set_state none host to p = err (panicked "host is in the plan")
set_state (some _) host to p = ok (record p { states = insert host to p.states })

unfoldable pub update_progress :
    Hostname → HostState → DeployProgress → Result (Fault HostError) DeployProgress
unfolding set_state
update_progress host to p = set_state (get host p.states) host to p

unfoldable pub log_message : Hostname → String → DeployProgress → DeployProgress
log_message host text p = record p { log = p.log ++ ((host, text) ∷ []) }

unfoldable pub num_failed : DeployProgress → ℕ
num_failed p = length (filter is_failure (values p.states))

digits : List String
digits = "0" ∷ "1" ∷ "2" ∷ "3" ∷ "4" ∷ "5" ∷ "6" ∷ "7" ∷ "8" ∷ "9" ∷ []

nth_text : List String → ℕ → String
nth_text [] n = ""
nth_text (s ∷ ss) zero = s
nth_text (s ∷ ss) (suc n) = nth_text ss n

-- The decimal digits of a number, one for each unit of fuel.
decimal : ℕ → ℕ → String
unfolding digits nth_text
decimal zero n = ""
decimal (suc fuel) n =
    let rest = decimal fuel (n / 10) in
    if ltb n 10 then nth_text digits n else rest <> nth_text digits (n % 10)

-- `{n}`: a number has fewer digits than one more than itself.
unfoldable pub show_nat : ℕ → String
unfolding decimal
show_nat n = decimal (suc n) n

unfoldable pub outcome_message : ℕ → String
outcome_message n =
    if nat_eq n 1
    then "encountered errors on 1 host"
    else "encountered errors on " <> (show_nat n <> " hosts")

unfoldable pub outcome : DeployProgress → Result Error (Unit {0})
outcome p =
    if nat_eq (num_failed p) 0 then ok tt else err (deploy_failed (outcome_message (num_failed p)))
