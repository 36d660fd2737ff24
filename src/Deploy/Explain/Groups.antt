-- ===== src/Deploy/Explain/Groups.antt =====
-- src/deploy.rs: what stands in the groups of `explain_errors`.
use deptool.Base.{
  ◌≡◌, ◌↔◌, sym, ◌∙◌, true, Bool-cases, inl, inr, refl, String, Bool, false, ◌&&◌, ◌||◌, Option,
  none, some, [], ◌∷◌, arith, ◌==◌, string_ord,
}
use deptool.BTreeMap.{BTreeMap, get, insert, contains_key}
use deptool.BTreeMap.Laws.{get-nil, get-insert}
use deptool.BTreeMap.Set.{BTreeSet}
use deptool.Types.{Hostname}
use deptool.Deploy.Progress.{DeployProgress, HostState}
use deptool.Deploy.Explain.Meaning.{
  SomeHostFailed, IsFailure-explain_state, explain_state-IsFailure, explanation,
}
use deptool.Deploy.Explain.{
  Explanation, explain_state, group_of, note, explain_loop, explain_errors,
}

abbrev is_explanation : String → String → Option Explanation → Bool
is_explanation description item none = false
is_explanation description item (some e) = description == e.description && item == e.item

abbrev stands_in : String → Option (BTreeSet String) → Bool
stands_in item none = false
stands_in item (some items) = contains_key item items

is_explanation-eq :
    (description item : String) (o : Option Explanation)
    → is_explanation description item o ≡ true
    → o ≡ some (explanation description item)
is_explanation-eq description item none h = cc
is_explanation-eq description item (some e) h =
    ground (arith, string_ord.beq_iff description e.description, string_ord.beq_iff item e.item)

module _ (version commit : String) where
  -- Whether the code explains some host of the map so.
  abbrev explains : String → String → BTreeMap Hostname HostState → Bool
  explains description item [] = false
  explains description item ((host, state) ∷ states) =
      is_explanation description item (explain_state version commit state host)
      || explains description item states

  -- Whether the item stands in the group of the description.
  abbrev pub holds : String → String → BTreeMap String (BTreeSet String) → Bool
  holds description item groups = stands_in item (get description groups)

  contains_key-group_of :
      (item : String) (o : Option (BTreeSet String))
      → contains_key item (group_of version commit o) ≡ stands_in item o
  contains_key-group_of item none = ground (arith, get-nil {V = Unit {0}} item)
  contains_key-group_of item (some items) = refl

  holds-note :
      (description item : String) (e : Option Explanation)
      (groups : BTreeMap String (BTreeSet String))
      → holds description item (note version commit e groups)
        ≡ (is_explanation description item e || holds description item groups)
  unfolding note
  holds-note description item none groups = refl
  holds-note description item (some e) groups = ground (
    arith,
    get-insert description e.description
        (insert e.item tt (group_of version commit (get e.description groups))) groups,
    contains_key-group_of item (get e.description groups),
    get-insert item e.item tt (group_of version commit (get e.description groups)),
    string_ord.beq_iff description e.description,
    string_ord.beq_iff item e.item,
  )

  holds-explain_loop :
      (description item : String) (states : BTreeMap Hostname HostState)
      (groups : BTreeMap String (BTreeSet String))
      → holds description item (explain_loop version commit states groups)
        ≡ (explains description item states || holds description item groups)
  unfolding explain_loop
  holds-explain_loop description item [] groups = refl
  holds-explain_loop description item ((host, state) ∷ states) groups = ground (
    arith,
    holds-explain_loop description item states
        (note version commit (explain_state version commit state host) groups),
    holds-note description item (explain_state version commit state host) groups,
  )

  holds-explains :
      (description item : String) (p : DeployProgress)
      → holds description item (explain_errors version commit p)
        ≡ explains description item p.states
  unfolding explain_errors
  holds-explains description item p = ground (
    arith,
    holds-explain_loop description item p.states [],
    get-nil {V = BTreeSet String} description,
    get-nil {V = Unit {0}} item,
  )

  explains-SomeHostFailed :
      (description item : String) (states : BTreeMap Hostname HostState)
      → explains description item states ≡ true
      → SomeHostFailed version commit states description item
  explains-SomeHostFailed description item [] h = cc
  explains-SomeHostFailed description item ((host, state) ∷ states) h =
      elim (Bool-cases
        (is_explanation description item (explain_state version commit state host))) [
          | inl e ↦ inl (
              explain_state-IsFailure version commit host state description item
                (is_explanation-eq description item _ e))
          | inr e ↦ inr (explains-SomeHostFailed description item states (rw e at h))
        ]

  SomeHostFailed-explains :
      (description item : String) (states : BTreeMap Hostname HostState)
      → SomeHostFailed version commit states description item
      → explains description item states ≡ true
  SomeHostFailed-explains description item [] h = absurd h
  SomeHostFailed-explains description item ((host, found) ∷ states) (inl h) =
      rw (IsFailure-explain_state version commit host found description item h)
        (ground (arith, string_ord.beq_iff description description, string_ord.beq_iff item item))
  SomeHostFailed-explains description item ((host, found) ∷ states) (inr h) =
      ground (arith, SomeHostFailed-explains description item states h)

  -- An item stands in the group of a description in `explain_errors` exactly when the state of
  -- some host of the progress is that it failed, with one of the errors that have a long
  -- explanation, and the description and the item are those of this error and this host.
  pub holds-explain_errors :
      (description item : String) (p : DeployProgress)
      → (holds description item (explain_errors version commit p) ≡ true)
        ↔ SomeHostFailed version commit p.states description item
  holds-explain_errors description item p = (
    λ h.
        explains-SomeHostFailed description item p.states
          (sym (holds-explains description item p) ∙ h),
    λ h. holds-explains description item p ∙ SomeHostFailed-explains description item p.states h,
  )
