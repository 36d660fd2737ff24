-- ===== src/Deploy/Packs/Built.antt =====
-- src/deploy.rs: every host of the plan finds its pack in what `build_packs` returns.
use mathlib.Core.Path.{subst}
use mathlib.Core.Option.{some-injective}
use deptool.Base.{
  ◌≡◌, sym, ◌∙◌, ap, String, true, Option, some, List, [], ◌∷◌, ◌⊎◌, inl, inr, ok, arith,
  Result-cases, Bool-cases, Option-cases, ok-injective, ◌==◌, string_ord,
}
use deptool.BTreeMap.{BTreeMap, get, insert, contains_key, values}
use deptool.BTreeMap.Laws.{get-nil, get-cons, get-insert}
use deptool.Types.{Oid, Hostname}
use deptool.Store.Repository.{Repository}
use deptool.Plan.Changes.{HostPlan}
use deptool.Plan.Make.{Plan}
use deptool.Deploy.Packs.{commit_ord, add_pack, packs_loop, build_packs}

module _ (R : Repository) (s : R.State) (commit : Oid) where
  abbrev Packs : Type 0
  Packs = BTreeMap (Option Oid) String

  -- Each pack of the map is the one that was built for its key.
  abbrev AllMade : Packs → Type 0
  AllMade packs =
      (k : Option Oid) (e : String) → get k packs ≡ some e → R.create_pack s commit k ≡ ok e

  -- The second map has the keys of the first one.
  abbrev Extends : Packs → Packs → Type 0
  Extends packs packs' =
      (k : Option Oid) → contains_key k packs ≡ true → contains_key k packs' ≡ true

  record Added (key : Option Oid) (packs packs' : Packs) : Type 0 where
    made : AllMade packs'
    has_key : contains_key key packs' ≡ true
    extends : Extends packs packs'

  inserted :
      (key : Option Oid) (packs : Packs) (e : String)
      → AllMade packs
      → R.create_pack s commit key ≡ ok e
      → Added key packs (insert key e packs)
  inserted key packs e all made = record {
    made = λ k f g. elim (Bool-cases (commit_ord.beq k key)) [
      | inl same ↦
          subst (λ j. R.create_pack s commit j ≡ ok f) (sym ((commit_ord.beq_iff k key).0 same))
            (made ∙ ap ok (some-injective e f (sym (get-insert k key e packs ∙ rw same) ∙ g)))
      | inr differ ↦ all k f (sym (get-insert k key e packs ∙ rw differ) ∙ g)
    ];
    has_key = ground (arith, get-insert key key e packs, commit_ord.beq_iff key key);
    extends = λ k h. ground (arith, get-insert k key e packs);
  }

  add_pack-Added :
      (key : Option Oid) (packs packs' : Packs)
      → AllMade packs
      → add_pack R s commit key packs ≡ ok packs'
      → Added key packs packs'
  unfolding add_pack
  add_pack-Added key packs packs' all done = elim (Bool-cases (contains_key key packs)) [
    | inl present ↦
        subst (Added key packs) (ok-injective (rw (present, add_pack) at done))
          (record { made = all; has_key = present; extends = λ k h. h })
    | inr absent ↦ elim (Result-cases (R.create_pack s commit key)) [
      | inr (_, failed) ↦ cc (rw (absent, failed, add_pack) at done)
      | inl (e, made) ↦
          subst (Added key packs) (ok-injective (rw (absent, made, add_pack) at done))
            (inserted key packs e all made)
    ]
  ]

  abbrev Among : HostPlan → List HostPlan → Type 0
  Among h [] = ⊥
  Among h (g ∷ gs) = (h ≡ g) ⊎ Among h gs

  record Built (hosts : List HostPlan) (packs packs' : Packs) : Type 0 where
    made : AllMade packs'
    has : (h : HostPlan) → Among h hosts → contains_key h.expected_current packs' ≡ true
    extends : Extends packs packs'

  packs_loop-Built :
      (hosts : List HostPlan) (packs packs' : Packs)
      → AllMade packs
      → packs_loop R s commit hosts packs ≡ ok packs'
      → Built hosts packs packs'
  unfolding packs_loop
  packs_loop-Built [] packs packs' all done =
      subst (Built [] packs) (ok-injective done)
        (record { made = all; has = λ h a. absurd a; extends = λ k h. h })
  packs_loop-Built (g ∷ gs) packs packs' all done =
      elim (Result-cases (add_pack R s commit g.expected_current packs)) [
        | inr (_, failed) ↦ cc (rw failed at done)
        | inl (next, added) ↦
            let one = add_pack-Added g.expected_current packs next all added in
            let rest = packs_loop-Built gs next packs' one.made (rw added at done) in
            record {
              made = rest.made;
              has = λ h a. elim a [
                | inl e ↦
                    rest.extends h.expected_current
                      (subst (λ x. contains_key x.expected_current next ≡ true) (sym e) one.has_key)
                | inr later ↦ rest.has h later
              ];
              extends = λ k h. rest.extends k (one.extends k h);
            }
      ]

  Among-values :
      (host : Hostname) (h : HostPlan) (hosts : BTreeMap Hostname HostPlan)
      → get host hosts ≡ some h
      → Among h (values hosts)
  Among-values host h [] g = cc (get-nil {V = HostPlan} host)
  Among-values host h ((k, v) ∷ hosts) g = elim (Bool-cases (host == k)) [
    | inl same ↦ inl (some-injective h v (sym g ∙ (get-cons host k v hosts ∙ rw same)))
    | inr differ ↦ inr (Among-values host h hosts (sym (get-cons host k v hosts ∙ rw differ) ∙ g))
  ]

  nothing_made : AllMade []
  nothing_made k e g = cc (get-nil {V = String} k)

module _ (R : Repository) (s : R.State) where
  -- If `build_packs` succeeds, then it has a pack for each host of the plan, under the commit that
  -- the host is expected to be at: the one that libgit2 creates from the plan's commit and that
  -- commit.
  pub build_packs-has :
      (plan : Plan) (packs : BTreeMap (Option Oid) String) (host : Hostname) (h : HostPlan)
      → build_packs R s plan ≡ ok packs
      → get host plan.hosts ≡ some h
      → (pack : String) × (get h.expected_current packs ≡ some pack)
        × (R.create_pack s plan.commit h.expected_current ≡ ok pack)
  unfolding build_packs
  build_packs-has plan packs host h built listed =
      let b =
        packs_loop-Built R s plan.commit (values plan.hosts) [] packs (nothing_made R s plan.commit)
          built in
      let present = b.has h (Among-values R s plan.commit host h plan.hosts listed) in
      elim (Option-cases (get h.expected_current packs)) [
        | inl absent ↦ cc (rw absent at present)
        | inr (pack, found) ↦ (pack, found, b.made h.expected_current pack found)
      ]
