-- ===== src/Deploy/Packs.antt =====
-- src/deploy.rs: one packfile for each commit that a host of the plan is at.
pub mod Built
use deptool.Base.{
  ◌≡◌, refl, String, Bool, true, false, Option, none, some, List, [], ◌∷◌, Result, ok, err, map_err,
  ◌>>=◌, Ord, string_ord, ◌==◌, if◌then◌else◌, arith, ◌↔◌,
}
use deptool.BTreeMap.{BTreeMap, insert, contains_key, values}
use deptool.Types.{Oid}
use deptool.Error.{Error, store_err}
use deptool.Store.Repository.{Repository, git_err}
use deptool.Plan.Changes.{HostPlan}
use deptool.Plan.Make.{Plan}

-- The derived order of `Option<Oid>`, in which `None` comes first.
abbrev pub same : Option Oid → Option Oid → Bool
same none none = true
same none (some b) = false
same (some a) none = false
same (some a) (some b) = a == b

abbrev pub before : Option Oid → Option Oid → Bool
before none none = false
before none (some b) = true
before (some a) none = false
before (some a) (some b) = string_ord.less a b

pub same_iff : (a b : Option Oid) → (same a b ≡ true) ↔ (a ≡ b)
same_iff none none = ground arith
same_iff none (some b) = ground arith
same_iff (some a) none = ground arith
same_iff (some a) (some b) = ground (arith, string_ord.beq_iff a b)

pub before_irrefl : (a : Option Oid) → before a a ≡ false
before_irrefl none = refl
before_irrefl (some a) = string_ord.less_irrefl a

pub before_trans : (a b c : Option Oid) → before a b ≡ true → before b c ≡ true → before a c ≡ true
before_trans none none c h k = cc
before_trans none (some b) none h k = cc
before_trans none (some b) (some c) h k = refl
before_trans (some a) none c h k = cc
before_trans (some a) (some b) none h k = cc
before_trans (some a) (some b) (some c) h k = string_ord.less_trans a b c h k

pub before_total : (a b : Option Oid) → same a b ≡ false → before a b ≡ false → before b a ≡ true
before_total none none h k = cc
before_total none (some b) h k = cc
before_total (some a) none h k = refl
before_total (some a) (some b) h k = string_ord.less_total a b h k

instance abbrev pub commit_ord : Ord (Option Oid)
commit_ord = record {
  beq = same;
  less = before;
  beq_iff = same_iff;
  less_irrefl = before_irrefl;
  less_trans = before_trans;
  less_total = before_total;
}

module _ (R : Repository) where
  open R use {State}

  -- One host: its pack is built unless another host needed the same one.
  unfoldable pub add_pack :
      State
      → Oid
      → Option Oid
      → BTreeMap (Option Oid) String
      → Result Error (BTreeMap (Option Oid) String)
  add_pack s commit key packs = elim (contains_key key packs) [
    | true ↦ ok packs
    | false ↦ do
      encoded ← map_err store_err (git_err (R.create_pack s commit key))
      ok (insert key encoded packs)
  ]

  unfoldable pub packs_loop :
      State
      → Oid
      → List HostPlan
      → BTreeMap (Option Oid) String
      → Result Error (BTreeMap (Option Oid) String)
  packs_loop s commit [] packs = ok packs
  packs_loop s commit (host ∷ hosts) packs = do
    packs' ← add_pack s commit host.expected_current packs
    packs_loop s commit hosts packs'

  unfoldable pub build_packs : State → Plan → Result Error (BTreeMap (Option Oid) String)
  build_packs s plan = packs_loop s plan.commit (values plan.hosts) []
