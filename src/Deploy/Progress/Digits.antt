-- ===== src/Deploy/Progress/Digits.antt =====
-- The decimal digits of a number: how many there are, and that src/main.rs reads the number back.
use Prim.Native.Char.{code}
use Prim.Native.String.{len}
use Prim.Native.String.len
use text.Mathlib.TextPositions.{len-append}
use text.Mathlib.TextLemmas.{nil-append, cons-append}
use deptool.Base.{
  ◌≡◌, refl, ◌∙◌, ap, String, ◌<>◌, ℕ, zero, suc, ◌+◌, ◌*◌, ◌/◌, ◌%◌, ◌≤◌, ◌<◌, false, none, some,
  arith, ltb, Bool-cases, inl, inr, ◌==◌, string_ord,
}
use deptool.Deploy.Progress.{digits, nth_text, decimal, show_nat}
use deptool.Systemd.Text.{parse_digits, parse_u64, strip_key, parse_unsigned, is_digit}

-- The number has at most so many digits.
abbrev pub Fits : ℕ → ℕ → Type 0
Fits zero n = ⊥
Fits (suc zero) n = n < 10
Fits (suc (suc k)) n = Fits (suc k) (n / 10)

Fits-suc : (k n : ℕ) → n < 10 → Fits (suc k) n
Fits-suc zero n h = h
Fits-suc (suc k) n h = Fits-suc k (n / 10) (omega arith)

digit-len : (n : ℕ) → n < 10 → len (nth_text digits n) ≡ 1
unfolding nth_text digits
digit-len zero h = refl
digit-len (suc zero) h = refl
digit-len (suc (suc zero)) h = refl
digit-len (suc (suc (suc zero))) h = refl
digit-len (suc (suc (suc (suc zero)))) h = refl
digit-len (suc (suc (suc (suc (suc zero))))) h = refl
digit-len (suc (suc (suc (suc (suc (suc zero)))))) h = refl
digit-len (suc (suc (suc (suc (suc (suc (suc zero))))))) h = refl
digit-len (suc (suc (suc (suc (suc (suc (suc (suc zero)))))))) h = refl
digit-len (suc (suc (suc (suc (suc (suc (suc (suc (suc zero))))))))) h = refl
digit-len (suc (suc (suc (suc (suc (suc (suc (suc (suc (suc n)))))))))) h = absurd (omega arith)

digit-parse : (m n : ℕ) → n < 10 → parse_digits m (nth_text digits n) ≡ some (m * 10 + n)
unfolding nth_text digits parse_digits
digit-parse m zero h = refl
digit-parse m (suc zero) h = refl
digit-parse m (suc (suc zero)) h = refl
digit-parse m (suc (suc (suc zero))) h = refl
digit-parse m (suc (suc (suc (suc zero)))) h = refl
digit-parse m (suc (suc (suc (suc (suc zero))))) h = refl
digit-parse m (suc (suc (suc (suc (suc (suc zero)))))) h = refl
digit-parse m (suc (suc (suc (suc (suc (suc (suc zero))))))) h = refl
digit-parse m (suc (suc (suc (suc (suc (suc (suc (suc zero)))))))) h = refl
digit-parse m (suc (suc (suc (suc (suc (suc (suc (suc (suc zero))))))))) h = refl
digit-parse m (suc (suc (suc (suc (suc (suc (suc (suc (suc (suc n)))))))))) h = absurd (omega arith)

parse_digits-append :
    (s t : String) (r m : ℕ)
    → parse_digits r s ≡ some m
    → parse_digits r (s <> t) ≡ parse_digits m t
unfolding parse_digits
parse_digits-append String.[] t r m h = ap (parse_digits r) (nil-append t) ∙ ground arith
parse_digits-append (String.◌∷◌ c s) t r m h = elim (Bool-cases (is_digit (code c))) [
  | inl e ↦
      rw (cons-append c s t, parse_digits, e)
        (parse_digits-append s t _ m (rw (parse_digits, e) at h))
  | inr e ↦ cc (rw (parse_digits, e) at h)
]

decimal-parse : (fuel n : ℕ) → n < fuel → parse_digits 0 (decimal fuel n) ≡ some n
unfolding decimal
decimal-parse zero n h = absurd (omega arith)
decimal-parse (suc fuel) n h = elim (Bool-cases (ltb n 10)) [
  | inl small ↦ rw small (digit-parse 0 n (ground arith) ∙ ap some (omega arith))
  | inr large ↦ rw large (
      parse_digits-append (decimal fuel (n / 10)) (nth_text digits (n % 10)) 0 (n / 10)
        (decimal-parse fuel (n / 10) (ground arith))
      ∙ digit-parse (n / 10) (n % 10) (omega arith)
      ∙ ap some (omega arith))
]

decimal-len : (fuel k n : ℕ) → Fits k n → len (decimal fuel n) ≤ k
unfolding decimal
decimal-len zero k n h = ground (arith, len.nil)
decimal-len (suc fuel) zero n h = absurd h
decimal-len (suc fuel) (suc zero) n h = elim (Bool-cases (ltb n 10)) [
  | inl small ↦ rw small (omega (arith, digit-len n (ground arith)))
  | inr large ↦ ground arith
]
decimal-len (suc fuel) (suc (suc k)) n h = elim (Bool-cases (ltb n 10)) [
  | inl small ↦ rw small (omega (arith, digit-len n (ground arith)))
  | inr large ↦ rw large (
      omega (
        arith,
        len-append (decimal fuel (n / 10)) (nth_text digits (n % 10)),
        digit-len (n % 10) (omega arith),
        decimal-len fuel (suc k) (n / 10) h,
      ))
]

pub len-show_nat : (k n : ℕ) → Fits k n → len (show_nat n) ≤ k
unfolding show_nat
len-show_nat k n h = decimal-len (suc n) k n h

decimal-pos : (fuel n : ℕ) → 0 < len (decimal (suc fuel) n)
unfolding decimal
decimal-pos fuel n = elim (Bool-cases (ltb n 10)) [
  | inl small ↦ rw small (omega (arith, digit-len n (ground arith)))
  | inr large ↦ rw large (
      omega (
        arith,
        len-append (decimal fuel (n / 10)) (nth_text digits (n % 10)),
        digit-len (n % 10) (omega arith),
      ))
]

unsigned_text : (s : String) (n : ℕ) → parse_digits 0 s ≡ some n → strip_key "+" s ≡ none
unfolding parse_digits strip_key
unsigned_text String.[] n h = refl
unsigned_text (String.◌∷◌ c s) n h = ground arith

not_empty : (s : String) → 0 < len s → (s == "") ≡ false
not_empty s h = elim (Bool-cases (s == "")) [
  | inr e ↦ e
  | inl e ↦ absurd (omega (arith, ap len ((string_ord.beq_iff s "").0 e), len.nil))
]

parse_unsigned_lem :
    (s : String) (n : ℕ)
    → (s == "") ≡ false
    → parse_digits 0 s ≡ some n
    → n < 18446744073709551616
    → parse_unsigned s ≡ some n
parse_unsigned_lem s n e f h = rw (e, f) (ground arith)

parse_u64-unsigned : (s : String) → strip_key "+" s ≡ none → parse_u64 s ≡ parse_unsigned s
unfolding parse_u64
parse_u64-unsigned s e = rw (parse_u64, e) refl

pub parse_u64-show_nat : (n : ℕ) → n < 18446744073709551616 → parse_u64 (show_nat n) ≡ some n
unfolding show_nat
parse_u64-show_nat n h =
    let parsed = decimal-parse (suc n) n (omega arith) in
    parse_u64-unsigned (decimal (suc n) n) (unsigned_text (decimal (suc n) n) n parsed)
    ∙ parse_unsigned_lem (decimal (suc n) n) n (not_empty (decimal (suc n) n) (decimal-pos n n))
        parsed h
