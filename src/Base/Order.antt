-- ===== src/Base/Order.antt =====
-- The bound `K: Ord` as an interface, with the laws that the trait asks of `==` and `<`,
-- and the instance for texts.
use Prim.Native.Nat.{ℕ, Ordering, compare as compare_ℕ}
use Prim.Native.Nat.Ordering.{lt, eq, gt}
use Prim.Native.Char.{code}
use Prim.Native.String.compare
use Prim.Native.String.{String, compare, then}
use mathlib.Core.Path.{◌≡◌, refl, ◌∙◌, ap, sym}
use mathlib.Core.Logic.{◌↔◌}
use mathlib.Core.Bool.{Bool, true, false}
use deptool.Base.Tests.{ltb, nat_eq}
use native.Mathlib.Omega.{arith}
use text.Mathlib.Text.{is_lt, is_eq, ◌==◌ as str_eq}
use text.Mathlib.TextEquality.{eq_iff}
use text.Mathlib.TextPositions.{compare_refl}

pub record Ord {ℓ} (K : Type ℓ) : Type ℓ where
  pub beq : K → K → Bool
  pub less : K → K → Bool
  pub beq_iff : (a b : K) → (beq a b ≡ true) ↔ (a ≡ b)
  pub less_irrefl : (a : K) → less a a ≡ false
  pub less_trans : (a b c : K) → less a b ≡ true → less b c ≡ true → less a c ≡ true
  pub less_total : (a b : K) → beq a b ≡ false → less a b ≡ false → less b a ≡ true

infix 50 ◌==◌ ◌<?◌
abbrev pub ◌==◌ {ℓ} : {K : Type ℓ} ⦃o : Ord K⦄ → K → K → Bool
◌==◌ ⦃o⦄ = o.beq

abbrev pub ◌<?◌ {ℓ} : {K : Type ℓ} ⦃o : Ord K⦄ → K → K → Bool
◌<?◌ ⦃o⦄ = o.less

abbrev pub str_less : String → String → Bool
str_less s t = is_lt (compare s t)

pub str_less_irrefl : (s : String) → str_less s s ≡ false
str_less_irrefl s = ap is_lt (compare_refl s)

-- One character decides, or the rest does.
then_trans :
    (a b c : ℕ) (p q r : Ordering)
    → (p ≡ lt → q ≡ lt → r ≡ lt)
    → then (compare_ℕ a b) p ≡ lt
    → then (compare_ℕ b c) q ≡ lt
    → then (compare_ℕ a c) r ≡ lt
then_trans a b c p q r rest h k = ground arith

compare_trans : (s t u : String) → compare s t ≡ lt → compare t u ≡ lt → compare s u ≡ lt
compare_trans String.[] String.[] u p q = q
compare_trans String.[] (String.◌∷◌ d t) String.[] p q = cc (compare.cons-nil d t)
compare_trans String.[] (String.◌∷◌ d t) (String.◌∷◌ e u) p q = compare.nil-cons e u
compare_trans (String.◌∷◌ c s) String.[] u p q = cc (compare.cons-nil c s)
compare_trans (String.◌∷◌ c s) (String.◌∷◌ d t) String.[] p q = cc (compare.cons-nil d t)
compare_trans (String.◌∷◌ c s) (String.◌∷◌ d t) (String.◌∷◌ e u) p q =
    compare.cons-cons c e s u
    ∙ then_trans (code c) (code d) (code e) (compare s t) (compare t u) (compare s u)
        (compare_trans s t u) (sym (compare.cons-cons c d s t) ∙ p)
        (sym (compare.cons-cons d e t u) ∙ q)

then_flip :
    (a b : ℕ) (p q : Ordering)
    → (p ≡ gt → q ≡ lt)
    → then (compare_ℕ a b) p ≡ gt
    → then (compare_ℕ b a) q ≡ lt
then_flip a b p q rest h = ground arith

compare_flip : (s t : String) → compare s t ≡ gt → compare t s ≡ lt
compare_flip String.[] String.[] p = cc compare.nil-nil
compare_flip String.[] (String.◌∷◌ d t) p = cc (compare.nil-cons d t)
compare_flip (String.◌∷◌ c s) String.[] p = compare.nil-cons c s
compare_flip (String.◌∷◌ c s) (String.◌∷◌ d t) p =
    compare.cons-cons d c t s
    ∙ then_flip (code c) (code d) (compare s t) (compare t s) (compare_flip s t)
        (sym (compare.cons-cons c d s t) ∙ p)

lt_of_less : (o : Ordering) → is_lt o ≡ true → o ≡ lt
lt_of_less lt h = refl
lt_of_less eq h = cc
lt_of_less gt h = cc

gt_of_neither : (o : Ordering) → is_eq o ≡ false → is_lt o ≡ false → o ≡ gt
gt_of_neither lt h k = cc
gt_of_neither eq h k = cc
gt_of_neither gt h k = refl

pub str_less_trans :
    (s t u : String) → str_less s t ≡ true → str_less t u ≡ true → str_less s u ≡ true
str_less_trans s t u p q = ap is_lt (compare_trans s t u (lt_of_less _ p) (lt_of_less _ q))

pub str_less_total :
    (s t : String) → str_eq s t ≡ false → str_less s t ≡ false → str_less t s ≡ true
str_less_total s t p q = ap is_lt (compare_flip s t (gt_of_neither _ p q))

instance abbrev pub string_ord : Ord String
string_ord = record {
  beq = str_eq;
  less = str_less;
  beq_iff = eq_iff;
  less_irrefl = str_less_irrefl;
  less_trans = str_less_trans;
  less_total = str_less_total;
}

pub nat_eq_iff : (a b : ℕ) → (nat_eq a b ≡ true) ↔ (a ≡ b)
nat_eq_iff a b = (λ h. ground arith, λ h. ground arith)

pub ltb_irrefl : (a : ℕ) → ltb a a ≡ false
ltb_irrefl a = ground arith

pub ltb_trans : (a b c : ℕ) → ltb a b ≡ true → ltb b c ≡ true → ltb a c ≡ true
ltb_trans a b c h k = ground arith

pub ltb_total : (a b : ℕ) → nat_eq a b ≡ false → ltb a b ≡ false → ltb b a ≡ true
ltb_total a b h k = ground arith

instance abbrev pub nat_ord : Ord ℕ
nat_ord = record {
  beq = nat_eq;
  less = ltb;
  beq_iff = nat_eq_iff;
  less_irrefl = ltb_irrefl;
  less_trans = ltb_trans;
  less_total = ltb_total;
}
