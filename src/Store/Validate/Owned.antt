-- ===== src/Store/Validate/Owned.antt =====
-- src/store.rs: after `validate`, no file of a managed directory is provided by two apps of a host.
pub mod Distinct
use mathlib.Core.Path.{subst}
use mathlib.Core.Option.{some-injective}
use deptool.Base.{
  ◌≡◌, refl, sym, ◌∙◌, ap, String, Bool, true, false, ◌||◌, Option, none, some, List, [], ◌∷◌,
  arith, inl, inr, Result, ok, err, Fault, failed, panicked, attempt, ◌>>=◌, >>=-eq-ok,
  Result-cases, Bool-cases, Option-cases, ok-injective, contains, ◌==◌, string_ord, if◌then◌else◌,
}
use deptool.BTreeMap.{BTreeMap, get, insert, keys}
use deptool.BTreeMap.Laws.{get-nil, get-cons, get-insert}
use deptool.BTreeMap.Set.{BTreeSet}
use deptool.Types.{Oid, Hostname}
use deptool.Store.Repository.{Repository, Tree, TreeEntry, get_name, name_is}
use deptool.Store.Trees.{find_tree, get_host_apps, subdir_entries, read_manifest}
use deptool.Store.Validate.{
  Owners, no_owners, claim, claim_all, check_symlinks, validate_app, validate_apps,
  validate_app_manifests, validate_hosts, validate,
}

abbrev pub Names : Type 0
Names = BTreeMap String String

-- The names were free, and now belong to the app; the other names belong to whom they did.
pub record Claimed (app : String) (names : List String) (before after : Names) : Type 0 where
  pub owns : (k : String) → contains names k ≡ true → get k after ≡ some app
  pub keeps : (k x : String) → get k before ≡ some x → get k after ≡ some x
  pub free : (k x : String) → get k before ≡ some x → contains names k ≡ false

claim-eq-ok :
    (noun app name : String) (owners after : Names)
    → claim noun app name owners ≡ ok after
    → (get name owners ≡ none) × (insert name app owners ≡ after)
unfolding claim
claim-eq-ok noun app name owners after e = elim (Option-cases (get name owners)) [
  | inl absent ↦ (absent, ok-injective (rw (absent, claim) at e))
  | inr (other, present) ↦ cc (rw (present, claim) at e)
]

claim_all-Claimed :
    (noun app : String) (names : List String) (owners after : Names)
    → claim_all noun app names owners ≡ ok after
    → Claimed app names owners after
unfolding claim_all
claim_all-Claimed noun app [] owners after e =
    subst (Claimed app [] owners) (ok-injective e)
      (record { owns = λ k h. cc; keeps = λ k x h. h; free = λ k x h. refl })
claim_all-Claimed noun app (name ∷ names) owners after e =
    elim (Result-cases (claim noun app name owners)) [
      | inr (_, stop) ↦ cc (rw stop at e)
      | inl (next, claimed) ↦
          let rest = claim_all-Claimed noun app names next after (rw claimed at e) in
          let (absent, same) = claim-eq-ok noun app name owners next claimed in
          let look = λ (k : String). sym (ap (λ m. get k m) same) ∙ get-insert k name app owners in
          record {
            owns = λ k h. elim (Bool-cases (k == name)) [
              | inl here ↦ rest.keeps k app (look k ∙ rw here)
              | inr differ ↦ rest.owns k (ground (arith, h, differ))
            ];
            keeps = λ k x h.
                rest.keeps k x (look k ∙ ground (arith, absent, h, string_ord.beq_iff k name));
            free = λ k x h.
                ground (arith, absent, h, string_ord.beq_iff k name, rest.free k x, look k);
          }
    ]

-- The managed directories.
pub data Managed : Type 0 where
  networkd quadlets sysusers units : Managed

abbrev pub dir_name : Managed → String
dir_name networkd = "networkd"
dir_name quadlets = "quadlets"
dir_name sysusers = "sysusers"
dir_name units = "systemd"

abbrev pub owners_of : Managed → Owners → Names
owners_of networkd o = o.networkd
owners_of quadlets o = o.quadlets
owners_of sysusers o = o.sysusers
owners_of units o = o.units

moved :
    (app : String) (names : List String) (before x y : Names)
    → x ≡ y
    → Claimed app names before x
    → Claimed app names before y
moved app names before x y e c = rw (← e) c

module _ (R : Repository) (s : R.State) where
  -- The app's files of the directory are claimed.
  abbrev pub ClaimsOf : Managed → String → Oid → Names → Names → Type 0
  ClaimsOf dir app app_tree before after =
      (names : BTreeSet String) × (subdir_entries R s app_tree (dir_name dir) ≡ ok names)
      × Claimed app (keys names) before after

  pub record AppClaims (app : String) (app_tree : Oid) (o o' : Owners) : Type 0 where
    networkd_claims : ClaimsOf networkd app app_tree o.networkd o'.networkd
    quadlet_claims : ClaimsOf quadlets app app_tree o.quadlets o'.quadlets
    sysuser_claims : ClaimsOf sysusers app app_tree o.sysusers o'.sysusers
    unit_claims : ClaimsOf units app app_tree o.units o'.units

  pub claims_of :
      (dir : Managed) (app : String) (app_tree : Oid) (o o' : Owners)
      → AppClaims app app_tree o o'
      → ClaimsOf dir app app_tree (owners_of dir o) (owners_of dir o')
  claims_of networkd app app_tree o o' c = c.networkd_claims
  claims_of quadlets app app_tree o o' c = c.quadlet_claims
  claims_of sysusers app app_tree o o' c = c.sysuser_claims
  claims_of units app app_tree o o' c = c.unit_claims

  pub validate_app-AppClaims :
      (app : String) (app_tree : Oid) (o o' : Owners)
      → validate_app R s app app_tree o ≡ ok o'
      → AppClaims app app_tree o o'
  unfolding validate_app
  validate_app-AppClaims app app_tree o o' e =
      let (manifest, _, e1) = >>=-eq-ok (read_manifest R s app_tree) _ e in
      let (_, _, e2) = >>=-eq-ok (find_tree R s app_tree) _ e1 in
      let (ns, n1, e3) = >>=-eq-ok (subdir_entries R s app_tree "networkd") _ e2 in
      let (nw, n2, e4) = >>=-eq-ok (claim_all "networkd config" app (keys ns) o.networkd) _ e3 in
      let (qs, q1, e5) = >>=-eq-ok (subdir_entries R s app_tree "quadlets") _ e4 in
      let (qo, q2, e6) = >>=-eq-ok (claim_all "quadlet" app (keys qs) o.quadlets) _ e5 in
      let (ss, s1, e7) = >>=-eq-ok (subdir_entries R s app_tree "sysusers") _ e6 in
      let (so, s2, e8) = >>=-eq-ok (claim_all "sysuser config" app (keys ss) o.sysusers) _ e7 in
      let (us, u1, e9) = >>=-eq-ok (subdir_entries R s app_tree "systemd") _ e8 in
      let (uo, u2, e10) = >>=-eq-ok (claim_all "unit" app (keys us) o.units) _ e9 in
      let (_, _, e11) =
        >>=-eq-ok (check_symlinks R s app app_tree manifest.symlinks o.symlinks) _ e10 in
      let same = ok-injective e11 in
      record {
        networkd_claims = (
          ns,
          n1,
          moved app (keys ns) o.networkd nw o'.networkd (ap (λ (x : Owners). x.networkd) same)
              (claim_all-Claimed "networkd config" app (keys ns) o.networkd nw n2),
        );
        quadlet_claims = (
          qs,
          q1,
          moved app (keys qs) o.quadlets qo o'.quadlets (ap (λ (x : Owners). x.quadlets) same)
              (claim_all-Claimed "quadlet" app (keys qs) o.quadlets qo q2),
        );
        sysuser_claims = (
          ss,
          s1,
          moved app (keys ss) o.sysusers so o'.sysusers (ap (λ (x : Owners). x.sysusers) same)
              (claim_all-Claimed "sysuser config" app (keys ss) o.sysusers so s2),
        );
        unit_claims = (
          us,
          u1,
          moved app (keys us) o.units uo o'.units (ap (λ (x : Owners). x.units) same)
              (claim_all-Claimed "unit" app (keys us) o.units uo u2),
        );
      }
