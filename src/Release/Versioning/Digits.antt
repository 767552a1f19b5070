-- ===== src/Release/Versioning/Digits.antt =====
-- The digits of a number: what is printed is read back.
use Prim.Native.Char.{Char, code}
use Prim.Native.String
use Prim.Native.String.{char_at}
use text.Mathlib.TextLemmas.{cons-append, nil-append, append_assoc}
use urateam.Prelude.{
  ℕ, zero, suc, ◌+◌, ◌*◌, ◌/◌, ◌%◌, ◌<◌, ◌≡◌, refl, ap, ◌∙◌, inl, inr, String, true, false, some,
  arith, ltb, str_eq, eq_iff, Bool-cases, show, show_from, digit,
}
use urateam.Release.Versioning.{span, read_from, number, is_digit}

digit_code : (d : ℕ) → d < 10 → code (char_at "0123456789" d) ≡ b'0' + d
digit_code zero h = refl
digit_code (suc zero) h = refl
digit_code (suc (suc zero)) h = refl
digit_code (suc (suc (suc zero))) h = refl
digit_code (suc (suc (suc (suc zero)))) h = refl
digit_code (suc (suc (suc (suc (suc zero))))) h = refl
digit_code (suc (suc (suc (suc (suc (suc zero)))))) h = refl
digit_code (suc (suc (suc (suc (suc (suc (suc zero))))))) h = refl
digit_code (suc (suc (suc (suc (suc (suc (suc (suc zero)))))))) h = refl
digit_code (suc (suc (suc (suc (suc (suc (suc (suc (suc zero))))))))) h = refl
digit_code (suc (suc (suc (suc (suc (suc (suc (suc (suc (suc d)))))))))) h =
    absurd (omega (arith, h))

-- A digit in front of a text.
digit-append :
    (d : ℕ) (s : String) → String.◌++◌ (digit d) s ≡ String.◌∷◌ (char_at "0123456789" d) s
digit-append d s =
    cons-append (char_at "0123456789" d) "" s
    ∙ ap (String.◌∷◌ (char_at "0123456789" d)) (nil-append s)

digit-is_digit : (d : ℕ) → d < 10 → is_digit (char_at "0123456789" d) ≡ true
digit-is_digit d h = ground (arith, digit_code d h)

-- The text starts with no digit.
abbrev pub EndsNumber : String → Type 0
EndsNumber s = (span is_digit s ≡ ("", s))

-- The text is `digits`, and then `rest` without one in front.
abbrev Splits : String → String → String → Type 0
Splits s digits rest = (span is_digit s ≡ (digits, rest))

Splits-digit :
    (d : ℕ) (s digits rest : String)
    → d < 10
    → Splits s digits rest
    → Splits (String.◌++◌ (digit d) s) (String.◌++◌ (digit d) digits) rest
unfolding span
Splits-digit d s digits rest h e =
    rw (digit-append d s, digit-append d digits, digit-is_digit d h) (rw e refl)

read_from-digit :
    (value d : ℕ) (s : String)
    → d < 10
    → read_from value (String.◌++◌ (digit d) s) ≡ read_from (10 * value + d) s
unfolding read_from
read_from-digit value d s h =
    rw (digit-append d s) (ap (λ v. read_from v s) (omega (arith, digit_code d h)))

show_from-Splits :
    (fuel n : ℕ) (s digits rest : String)
    → n < fuel
    → Splits s digits rest
    → Splits (show_from fuel n s) (show_from fuel n digits) rest
unfolding show_from
show_from-Splits zero n s digits rest h e = absurd (omega (arith, h))
show_from-Splits (suc fuel) n s digits rest h e = elim (Bool-cases (ltb n 10)) [
  | inl t ↦ rw t (Splits-digit n s digits rest (ground arith) e)
  | inr f ↦ rw f (
      show_from-Splits fuel (n / 10) (String.◌++◌ (digit (n % 10)) s)
        (String.◌++◌ (digit (n % 10)) digits) rest (ground arith)
        (Splits-digit (n % 10) s digits rest (omega arith) e))
]

show_from-append :
    (fuel n : ℕ) (s t : String)
    → String.◌++◌ (show_from fuel n s) t ≡ show_from fuel n (String.◌++◌ s t)
unfolding show_from
show_from-append zero n s t = refl
show_from-append (suc fuel) n s t = elim (Bool-cases (ltb n 10)) [
  | inl e ↦ rw e (append_assoc (digit n) s t)
  | inr f ↦ rw f (
      show_from-append fuel (n / 10) (String.◌++◌ (digit (n % 10)) s) t
      ∙ ap (show_from fuel (n / 10)) (append_assoc (digit (n % 10)) s t))
]

read_from-show_from :
    (fuel n : ℕ) (s : String) → n < fuel → read_from 0 (show_from fuel n s) ≡ read_from n s
unfolding show_from
read_from-show_from zero n s h = absurd (omega (arith, h))
read_from-show_from (suc fuel) n s h = elim (Bool-cases (ltb n 10)) [
  | inl t ↦ rw t (read_from-digit 0 n s (ground arith) ∙ ap (λ v. read_from v s) (omega arith))
  | inr f ↦ rw f (
      read_from-show_from fuel (n / 10) (String.◌++◌ (digit (n % 10)) s) (ground arith)
      ∙ read_from-digit (n / 10) (n % 10) s (omega arith)
      ∙ ap (λ v. read_from v s) (omega arith))
]

pub cons-nonempty : (c : Char) (s : String) → str_eq (String.◌∷◌ c s) "" ≡ false
cons-nonempty c s = elim (Bool-cases (str_eq (String.◌∷◌ c s) "")) [
  | inl t ↦ cc ((eq_iff (String.◌∷◌ c s) "").0 t)
  | inr f ↦ f
]

show_from-nonempty : (fuel n : ℕ) (s : String) → n < fuel → str_eq (show_from fuel n s) "" ≡ false
unfolding show_from
show_from-nonempty zero n s h = absurd (omega (arith, h))
show_from-nonempty (suc fuel) n s h = elim (Bool-cases (ltb n 10)) [
  | inl t ↦ rw (t, digit-append n s) (cons-nonempty (char_at "0123456789" n) s)
  | inr f ↦ rw f (show_from-nonempty fuel (n / 10) (String.◌++◌ (digit (n % 10)) s) (ground arith))
]

-- A number that is printed in front of a text without a digit is read back.
pub number-show :
    (n : ℕ) (rest : String) → EndsNumber rest → number (String.◌++◌ (show n) rest) ≡ some (n, rest)
unfolding number show
number-show n rest e =
    let text = show_from-append (suc n) n "" rest ∙ ap (show_from (suc n) n) (nil-append rest) in
    let split = show_from-Splits (suc n) n rest "" rest (omega arith) e in
    rw (text, split, show_from-nonempty (suc n) n "" (omega arith))
      (ap (λ v. some (v, rest)) (read_from-show_from (suc n) n "" (omega arith)))
