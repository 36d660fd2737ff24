-- ===== src/Deploy/Explain/Meaning.antt =====
-- src/error.rs and src/deploy.rs: which hosts are explained, and by what, as relations that do not
-- call the code.
use deptool.Base.{
  ◌≡◌, ◌≢◌, refl, sym, ap, String, ◌<>◌, none, some, [], ◌∷◌, arith, ◌==◌, string_ord, Bool-cases,
  inl, inr, ◌⊎◌,
}
use mathlib.Core.Option.{some-injective}
use deptool.BTreeMap.{BTreeMap}
use deptool.Types.{Hostname}
use deptool.Error.{HostError, escape_debug, display_apply_error}
use deptool.Deploy.Progress.{HostState}
use deptool.Deploy.Explain.{
  Explanation, explain, explain_state, stderr_item, indent_lines, missing_binary,
  differing_hostname, changed_hostname, interrupted, no_checksum, wrong_checksum, failed_apply,
  failed_rollback,
}

-- The lines that a host wrote to its stderr, indented below its name, or a note that there are none.
abbrev pub IsStderrItem : String → String → String → Type 0
IsStderrItem host stderr item =
    (stderr ≡ "" → item ≡ "  " <> (host <> ": (the host produced no stderr)"))
    × (stderr ≢ "" → item ≡ "  " <> (host <> (":\n    " <> indent_lines stderr)))

abbrev pub explanation : String → String → Explanation
explanation description item = record { description = description; item = item }

fields :
    (d i description item : String)
    → some (explanation d i) ≡ some (explanation description item)
    → (description ≡ d) × (item ≡ i)
fields d i description item h =
    let same = some-injective (explanation d i) (explanation description item) h in
    (
      ap (λ (x : Explanation). x.description) (sym same),
      ap (λ (x : Explanation). x.item) (sym same),
    )

of_fields :
    (d i description item : String)
    → (description ≡ d) × (item ≡ i)
    → some (explanation d i) ≡ some (explanation description item)
of_fields d i description item (e, f) = rw (e, f) refl

stderr_item-IsStderrItem :
    (host stderr item : String) → item ≡ stderr_item host stderr → IsStderrItem host stderr item
unfolding stderr_item
stderr_item-IsStderrItem host stderr item e = (
  λ none_said. ground (arith, string_ord.beq_iff stderr ""),
  λ some_said. ground (arith, string_ord.beq_iff stderr ""),
)

IsStderrItem-stderr_item :
    (host stderr item : String) → IsStderrItem host stderr item → item ≡ stderr_item host stderr
unfolding stderr_item
IsStderrItem-stderr_item host stderr item h = elim (Bool-cases (stderr == "")) [
  | inl e ↦ rw e (h.0 ((string_ord.beq_iff stderr "").0 e))
  | inr e ↦ rw e (h.1 (λ x. cc (e, (string_ord.beq_iff stderr "").1 x)))
]

module _ (version commit : String) where
  -- The description and the item of an error of a host. No other error has a long explanation.
  abbrev pub IsExplained : Hostname → HostError → String → String → Type 0
  IsExplained host (HostError.setup_missing_binary platform path) description item =
      (description ≡ missing_binary version commit) × (item ≡ "  " <> (platform <> (": " <> path)))
  IsExplained host (HostError.hostname_mismatch actual) description item =
      (description ≡ differing_hostname)
      × (item ≡ "  " <> (host <> (": /etc/hostname contains \"" <> (escape_debug actual <> "\""))))
  IsExplained host (HostError.hostname_changed (some name)) description item =
      (description ≡ changed_hostname)
      × (item ≡ "  " <> (host <> (": deployed as '" <> (name <> "'"))))
  IsExplained host (HostError.hostname_changed none) description item =
      (description ≡ changed_hostname)
      × (item ≡ "  " <> (host <> ": deployed under an unknown name"))
  IsExplained host (HostError.setup_interrupted stderr) description item =
      (description ≡ interrupted) × IsStderrItem host stderr item
  IsExplained host (HostError.setup_no_checksum stderr) description item =
      (description ≡ no_checksum) × IsStderrItem host stderr item
  IsExplained host (HostError.setup_checksum_mismatch expected_hash actual_hash) description item =
      (description ≡ wrong_checksum)
      × (item ≡ "  " <> (host <> (": expected " <> (expected_hash <> (", got " <> actual_hash)))))
  IsExplained host (HostError.apply_failed apply_error) description item =
      (description ≡ failed_apply)
      × (item ≡ "  " <> (host <> (": " <> display_apply_error apply_error)))
  IsExplained host (HostError.rollback_failed apply_error rollback_error) description item =
      (description ≡ failed_rollback)
      × (item
          ≡ "  "
            <> (host
                <> (":\n    apply: "
                    <> (display_apply_error apply_error
                        <> ("\n    rollback: " <> display_apply_error rollback_error)))))
  IsExplained host _ description item = ⊥

  -- Only a host that failed is explained.
  abbrev pub IsFailure : Hostname → HostState → String → String → Type 0
  IsFailure host (HostState.failed e) description item = IsExplained host e description item
  IsFailure host _ description item = ⊥

  -- Some host of the map failed with this description and this item.
  abbrev pub SomeHostFailed : BTreeMap Hostname HostState → String → String → Type 0
  SomeHostFailed [] description item = ⊥
  SomeHostFailed ((host, state) ∷ states) description item =
      IsFailure host state description item ⊎ SomeHostFailed states description item

  explain-IsExplained :
      (host : Hostname) (e : HostError) (description item : String)
      → explain version commit e host ≡ some (explanation description item)
      → IsExplained host e description item
  unfolding explain
  explain-IsExplained host (HostError.setup_missing_binary platform path) description item h =
      fields _ _ description item h
  explain-IsExplained host (HostError.hostname_mismatch actual) description item h =
      fields _ _ description item h
  explain-IsExplained host (HostError.hostname_changed (some name)) description item h =
      fields _ _ description item h
  explain-IsExplained host (HostError.hostname_changed none) description item h =
      fields _ _ description item h
  explain-IsExplained host (HostError.setup_interrupted stderr) description item h =
      let (d, i) = fields _ _ description item h in (d, stderr_item-IsStderrItem host stderr item i)
  explain-IsExplained host (HostError.setup_no_checksum stderr) description item h =
      let (d, i) = fields _ _ description item h in (d, stderr_item-IsStderrItem host stderr item i)
  explain-IsExplained host (HostError.setup_checksum_mismatch a b) description item h =
      fields _ _ description item h
  explain-IsExplained host (HostError.apply_failed a) description item h =
      fields _ _ description item h
  explain-IsExplained host (HostError.rollback_failed a b) description item h =
      fields _ _ description item h
  explain-IsExplained host (HostError.connection_failed a) description item h = cc
  explain-IsExplained host (HostError.agent_not_installed a) description item h = cc
  explain-IsExplained host (HostError.setup_read_error a b) description item h = cc
  explain-IsExplained host HostError.incomplete_deploy description item h = cc
  explain-IsExplained host (HostError.protocol_error a) description item h = cc
  explain-IsExplained host (HostError.store_error a) description item h = cc
  explain-IsExplained host (HostError.pre_apply a) description item h = cc

  IsExplained-explain :
      (host : Hostname) (e : HostError) (description item : String)
      → IsExplained host e description item
      → explain version commit e host ≡ some (explanation description item)
  unfolding explain
  IsExplained-explain host (HostError.setup_missing_binary platform path) description item h =
      of_fields _ _ description item h
  IsExplained-explain host (HostError.hostname_mismatch actual) description item h =
      of_fields _ _ description item h
  IsExplained-explain host (HostError.hostname_changed (some name)) description item h =
      of_fields _ _ description item h
  IsExplained-explain host (HostError.hostname_changed none) description item h =
      of_fields _ _ description item h
  IsExplained-explain host (HostError.setup_interrupted stderr) description item (d, i) =
      of_fields _ _ description item (d, IsStderrItem-stderr_item host stderr item i)
  IsExplained-explain host (HostError.setup_no_checksum stderr) description item (d, i) =
      of_fields _ _ description item (d, IsStderrItem-stderr_item host stderr item i)
  IsExplained-explain host (HostError.setup_checksum_mismatch a b) description item h =
      of_fields _ _ description item h
  IsExplained-explain host (HostError.apply_failed a) description item h =
      of_fields _ _ description item h
  IsExplained-explain host (HostError.rollback_failed a b) description item h =
      of_fields _ _ description item h
  IsExplained-explain host (HostError.connection_failed a) description item h = absurd h
  IsExplained-explain host (HostError.agent_not_installed a) description item h = absurd h
  IsExplained-explain host (HostError.setup_read_error a b) description item h = absurd h
  IsExplained-explain host HostError.incomplete_deploy description item h = absurd h
  IsExplained-explain host (HostError.protocol_error a) description item h = absurd h
  IsExplained-explain host (HostError.store_error a) description item h = absurd h
  IsExplained-explain host (HostError.pre_apply a) description item h = absurd h

  -- The code explains exactly the failed hosts.
  pub explain_state-IsFailure :
      (host : Hostname) (state : HostState) (description item : String)
      → explain_state version commit state host ≡ some (explanation description item)
      → IsFailure host state description item
  unfolding explain_state
  explain_state-IsFailure host (HostState.failed e) description item h =
      explain-IsExplained host e description item h
  explain_state-IsFailure host HostState.waiting description item h = cc
  explain_state-IsFailure host HostState.connecting description item h = cc
  explain_state-IsFailure host HostState.installing_agent description item h = cc
  explain_state-IsFailure host HostState.connected description item h = cc
  explain_state-IsFailure host HostState.locked description item h = cc
  explain_state-IsFailure host HostState.pushing description item h = cc
  explain_state-IsFailure host HostState.applying description item h = cc
  explain_state-IsFailure host (HostState.waiting_for_units a) description item h = cc
  explain_state-IsFailure host HostState.rolling_back description item h = cc
  explain_state-IsFailure host HostState.done description item h = cc
  explain_state-IsFailure host HostState.up_to_date description item h = cc
  explain_state-IsFailure host HostState.updated description item h = cc
  explain_state-IsFailure host (HostState.pinging a) description item h = cc
  explain_state-IsFailure host (HostState.pinged a) description item h = cc
  explain_state-IsFailure host HostState.stale description item h = cc
  explain_state-IsFailure host (HostState.lock_busy a) description item h = cc
  explain_state-IsFailure host (HostState.rolled_back a) description item h = cc

  pub IsFailure-explain_state :
      (host : Hostname) (state : HostState) (description item : String)
      → IsFailure host state description item
      → explain_state version commit state host ≡ some (explanation description item)
  unfolding explain_state
  IsFailure-explain_state host (HostState.failed e) description item h =
      IsExplained-explain host e description item h
  IsFailure-explain_state host HostState.waiting description item h = absurd h
  IsFailure-explain_state host HostState.connecting description item h = absurd h
  IsFailure-explain_state host HostState.installing_agent description item h = absurd h
  IsFailure-explain_state host HostState.connected description item h = absurd h
  IsFailure-explain_state host HostState.locked description item h = absurd h
  IsFailure-explain_state host HostState.pushing description item h = absurd h
  IsFailure-explain_state host HostState.applying description item h = absurd h
  IsFailure-explain_state host (HostState.waiting_for_units a) description item h = absurd h
  IsFailure-explain_state host HostState.rolling_back description item h = absurd h
  IsFailure-explain_state host HostState.done description item h = absurd h
  IsFailure-explain_state host HostState.up_to_date description item h = absurd h
  IsFailure-explain_state host HostState.updated description item h = absurd h
  IsFailure-explain_state host (HostState.pinging a) description item h = absurd h
  IsFailure-explain_state host (HostState.pinged a) description item h = absurd h
  IsFailure-explain_state host HostState.stale description item h = absurd h
  IsFailure-explain_state host (HostState.lock_busy a) description item h = absurd h
  IsFailure-explain_state host (HostState.rolled_back a) description item h = absurd h
