-- ===== src/Systemd/Units.antt =====
-- src/main.rs: `UnitStatus`, the state of a unit as `systemctl show` prints it, and what it says of a
-- restart. Times are in nanoseconds on the clock of `CLOCK_MONOTONIC`.
use deptool.Base.{
  String, ℕ, ◌+◌, ◌*◌, Bool, ◌&&◌, ◌||◌, not, Option, none, some, List, [], ◌∷◌, Result, ok, err,
  ◌>>=◌, ltb, leb, if◌then◌else◌, ◌==◌, string_ord,
}
use deptool.Error.{ApplyError, systemd_status_unreadable}
use deptool.Systemd.Text.{lines, strip_key, parse_u64}

pub record UnitStatus : Type 0 where
  pub load_state : String
  pub active_state : String
  pub active_enter_monotonic : ℕ
  pub result : String
  pub restarts : ℕ

pub data Activation : Type 0 where
  succeeded running starting failed : Activation

-- The value of the first line that starts with the key, or an empty text.
unfoldable pub prop_of : String → List String → String
prop_of key [] = ""
prop_of key (line ∷ rest) = elim (strip_key key line) [
  | some value ↦ value
  | none ↦ prop_of key rest
]

abbrev pub unreadable : String → Option ℕ → Result ApplyError ℕ
unreadable block (some n) = ok n
unreadable block none = err (systemd_status_unreadable block)

unfoldable pub restarts_of : String → String → Result ApplyError ℕ
restarts_of block text = if text == "" then ok 0 else unreadable block (parse_u64 text)

unfoldable pub from_show_block : String → Result ApplyError UnitStatus
from_show_block block = do
  let prop = λ (key : String). prop_of key (lines block)
  restarts ← restarts_of block (prop "NRestarts=")
  active_enter_micros ← unreadable block (parse_u64 (prop "ActiveEnterTimestampMonotonic="))
  ok (record {
    load_state = prop "LoadState=";
    active_state = prop "ActiveState=";
    active_enter_monotonic = active_enter_micros * 1000;
    result = prop "Result=";
    restarts = restarts;
  })

-- `UnitStatus::activation`
unfoldable pub activation : UnitStatus → UnitStatus → Activation
activation status baseline =
    if not (status.load_state == "loaded")
      || (not (status.result == "") && not (status.result == "success"))
      || ltb baseline.restarts status.restarts
    then failed
    else if status.active_state == "inactive"
    then succeeded
    else if status.active_state == "active"
    then running
    else starting

-- The settle window of 500 ms.
abbrev pub settle_window : ℕ
settle_window = 500000000

unfoldable pub settled : UnitStatus → ℕ → Bool
settled status now = leb (status.active_enter_monotonic + settle_window) now
