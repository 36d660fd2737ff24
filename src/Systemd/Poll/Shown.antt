-- ===== src/Systemd/Poll/Shown.antt =====
-- src/main.rs: what the statuses say of the blocks that `systemctl show` printed.
use deptool.Base.{
  ◌≡◌, suc, ◌⊎◌, refl, sym, ◌∙◌, ap, subst, String, ℕ, ◌*◌, Option, none, some, List, [], ◌∷◌, ok,
  length, nat_eq, arith, >>=-eq-ok, ok-injective, Bool-cases, inl, inr, ◌==◌, string_ord,
}
use deptool.Systemd.Text.{lines, parse_u64, trim, split_blocks}
use deptool.Systemd.Units.{UnitStatus, prop_of, unreadable, restarts_of, from_show_block}
use deptool.Systemd.Poll.{parse_blocks, read_report}

-- The value of a property in a block.
abbrev pub value : String → String → String
value key block = prop_of key (lines block)

-- The status has the properties of the block. The time is in microseconds there, and a missing
-- number of restarts is none.
pub record IsShown (block : String) (status : UnitStatus) : Type 0 where
  pub load_state : status.load_state ≡ value "LoadState=" block
  pub active_state : status.active_state ≡ value "ActiveState=" block
  pub entered :
      (micros : ℕ) × (parse_u64 (value "ActiveEnterTimestampMonotonic=" block) ≡ some micros)
      × (status.active_enter_monotonic ≡ micros * 1000)
  pub result : status.result ≡ value "Result=" block
  pub restarts :
      ((value "NRestarts=" block ≡ "") × (status.restarts ≡ 0))
      ⊎ (parse_u64 (value "NRestarts=" block) ≡ some status.restarts)

abbrev pub AreShown : List String → List UnitStatus → Type 0
AreShown [] [] = Unit {0}
AreShown (block ∷ blocks) (status ∷ statuses) = IsShown block status × AreShown blocks statuses
AreShown _ _ = ⊥

unreadable-ok : (block : String) (o : Option ℕ) (n : ℕ) → unreadable block o ≡ ok n → o ≡ some n
unreadable-ok block (some m) n h = ap some (ok-injective h)
unreadable-ok block none n h = cc

restarts_of-ok :
    (block text : String) (n : ℕ)
    → restarts_of block text ≡ ok n
    → ((text ≡ "") × (n ≡ 0)) ⊎ (parse_u64 text ≡ some n)
unfolding restarts_of
restarts_of-ok block text n h = elim (Bool-cases (text == "")) [
  | inl e ↦ inl ((string_ord.beq_iff text "").0 e, sym (ok-injective (rw (restarts_of, e) at h)))
  | inr e ↦ inr (unreadable-ok block (parse_u64 text) n (rw (restarts_of, e) at h))
]

from_show_block-IsShown :
    (block : String) (status : UnitStatus)
    → from_show_block block ≡ ok status
    → IsShown block status
unfolding from_show_block
from_show_block-IsShown block status h =
    let (restarts, counted, h1) = >>=-eq-ok (restarts_of block (value "NRestarts=" block)) _ h in
    let (micros, timed, h2) =
      >>=-eq-ok (unreadable block (parse_u64 (value "ActiveEnterTimestampMonotonic=" block))) _
        h1 in
    subst (IsShown block) (ok-injective h2) (record {
      load_state = refl;
      active_state = refl;
      entered = (micros, unreadable-ok block _ micros timed, refl);
      result = refl;
      restarts = restarts_of-ok block _ restarts counted;
    })

parse_blocks-AreShown :
    (blocks : List String) (statuses : List UnitStatus)
    → parse_blocks blocks ≡ ok statuses
    → AreShown blocks statuses
unfolding parse_blocks
parse_blocks-AreShown [] statuses h = subst (AreShown []) (ok-injective h) tt
parse_blocks-AreShown (block ∷ blocks) statuses h =
    let (status, one, rest) = >>=-eq-ok (from_show_block block) _ h in
    let (others, parsed, done) = >>=-eq-ok (parse_blocks blocks) _ rest in
    subst (AreShown (block ∷ blocks)) (ok-injective done)
      (from_show_block-IsShown block status one, parse_blocks-AreShown blocks others parsed)

length-AreShown :
    (blocks : List String) (statuses : List UnitStatus)
    → AreShown blocks statuses
    → length statuses ≡ length blocks
length-AreShown [] [] h = refl
length-AreShown [] (status ∷ statuses) h = absurd h
length-AreShown (block ∷ blocks) [] h = absurd h
length-AreShown (block ∷ blocks) (status ∷ statuses) h =
    ap suc (length-AreShown blocks statuses h.1)

-- A report that is read has one block for each unit, and the statuses are those of the blocks.
pub read_report-AreShown :
    (touched : List String) (report : String) (statuses : List UnitStatus)
    → read_report touched report ≡ ok statuses
    → (length statuses ≡ length touched) × AreShown (split_blocks (trim report)) statuses
unfolding read_report
read_report-AreShown touched report statuses h =
    elim (Bool-cases (nat_eq (length (split_blocks (trim report))) (length touched))) [
      | inl e ↦
          let shown = parse_blocks-AreShown _ statuses (rw (read_report, e) at h) in
          (length-AreShown _ statuses shown ∙ ground arith, shown)
      | inr e ↦ cc (rw (read_report, e) at h)
    ]
