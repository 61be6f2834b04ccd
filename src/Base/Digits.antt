-- ===== src/Base/Digits.antt =====
-- Numbers read from texts: what `Number(s)` gives for a text of digits.
use Prim.Native.Char.{Char, code}
use Prim.Native.Nat.{ℕ, zero, suc, ◌+◌, ◌-◌, ◌*◌, ◌/◌, ◌%◌, ◌<◌}
use Prim.Native.String.{String}
use Prim.Native.String
use mathlib.Core.Path.{◌≡◌, refl}
use mathlib.Core.Logic.{inl, inr}
use mathlib.Core.Bool.{Bool, ◌&&◌}
use mathlib.Core.Option.{Option, none, some}
use native.Mathlib.Omega.{arith}
use text.Mathlib.TextLemmas.{cons-append, nil-append}
use rmm_rxf_sys_de.Base.Tests.{leb, ◌==◌, Bool-cases, if◌then◌else◌}
use rmm_rxf_sys_de.Base.Text.{digit, decimal_from, decimal}

abbrev pub is_digit : Char → Bool
is_digit c = leb 48 (code c) && leb (code c) 57

-- The number that the digits continue, `none` where there is another character.
unfoldable pub number_from : ℕ → String → Option ℕ
number_from n String.[] = some n
number_from n (String.◌∷◌ c s) =
    let rest = number_from (10 * n + (code c - 48)) s in if is_digit c then rest else none

-- `/^[1-9]\d*$/.test(s) ? Number(s) : null`, for numbers that a float holds exactly
unfoldable pub positive_number : String → Option ℕ
positive_number String.[] = none
positive_number (String.◌∷◌ c s) =
    if leb 49 (code c) && leb (code c) 57 then number_from (code c - 48) s else none

abbrev then_from : Option ℕ → String → Option ℕ
then_from none t = none
then_from (some n) t = number_from n t

number_from-append :
    (n : ℕ) (s t : String) → number_from n (String.◌++◌ s t) ≡ then_from (number_from n s) t
unfolding number_from
number_from-append n String.[] t = rw (nil-append t) refl
number_from-append n (String.◌∷◌ c s) t =
    rw (cons-append c s t) (ground (arith, number_from-append (10 * n + (code c - 48)) s t))

number_from-digit : (n d : ℕ) → d < 10 → number_from n (digit d) ≡ some (10 * n + d)
unfolding number_from digit
number_from-digit n zero h = ground arith
number_from-digit n (suc zero) h = ground arith
number_from-digit n (suc (suc zero)) h = ground arith
number_from-digit n (suc (suc (suc zero))) h = ground arith
number_from-digit n (suc (suc (suc (suc zero)))) h = ground arith
number_from-digit n (suc (suc (suc (suc (suc zero))))) h = ground arith
number_from-digit n (suc (suc (suc (suc (suc (suc zero)))))) h = ground arith
number_from-digit n (suc (suc (suc (suc (suc (suc (suc zero))))))) h = ground arith
number_from-digit n (suc (suc (suc (suc (suc (suc (suc (suc zero)))))))) h = ground arith
number_from-digit n (suc (suc (suc (suc (suc (suc (suc (suc (suc zero))))))))) h = ground arith
number_from-digit n (suc (suc (suc (suc (suc (suc (suc (suc (suc (suc d)))))))))) h =
    absurd (omega arith)

positive_number-append :
    (s t : String) (m : ℕ)
    → positive_number s ≡ some m
    → positive_number (String.◌++◌ s t) ≡ number_from m t
unfolding positive_number
positive_number-append String.[] t m h = absurd (ground arith)
positive_number-append (String.◌∷◌ c s) t m h =
    elim (Bool-cases (leb 49 (code c) && leb (code c) 57)) [
      | inl first ↦
          let head : number_from (code c - 48) s ≡ some m = rw (first) at h in
          rw (cons-append c s t, first, number_from-append (code c - 48) s t, head)
      | inr other ↦ absurd (ground arith)
    ]

positive_number-digit : (d : ℕ) → d < 10 → 0 < d → positive_number (digit d) ≡ some d
unfolding positive_number number_from digit
positive_number-digit zero h p = absurd (omega arith)
positive_number-digit (suc zero) h p = refl
positive_number-digit (suc (suc zero)) h p = refl
positive_number-digit (suc (suc (suc zero))) h p = refl
positive_number-digit (suc (suc (suc (suc zero)))) h p = refl
positive_number-digit (suc (suc (suc (suc (suc zero))))) h p = refl
positive_number-digit (suc (suc (suc (suc (suc (suc zero)))))) h p = refl
positive_number-digit (suc (suc (suc (suc (suc (suc (suc zero))))))) h p = refl
positive_number-digit (suc (suc (suc (suc (suc (suc (suc (suc zero)))))))) h p = refl
positive_number-digit (suc (suc (suc (suc (suc (suc (suc (suc (suc zero))))))))) h p = refl
positive_number-digit (suc (suc (suc (suc (suc (suc (suc (suc (suc (suc d)))))))))) h p =
    absurd (omega arith)

positive_number-decimal_from :
    (fuel n : ℕ) → n < fuel → 0 < n → positive_number (decimal_from fuel n) ≡ some n
unfolding decimal_from
positive_number-decimal_from zero n h p = absurd (omega arith)
positive_number-decimal_from (suc fuel) n h p = elim (Bool-cases (n / 10 == 0)) [
  | inl one ↦ rw (one, positive_number-digit (n % 10) (omega arith) (ground arith)) (ground arith)
  | inr more ↦
      rw
        (
          more,
          positive_number-append (decimal_from fuel (n / 10)) (digit (n % 10)) (n / 10)
              (positive_number-decimal_from fuel (n / 10) (ground arith) (ground arith)),
          number_from-digit (n / 10) (n % 10) (omega arith),
        )
        (ground arith)
]

-- A positive number is read back from its digits.
pub positive_number-decimal : (n : ℕ) → 0 < n → positive_number (decimal n) ≡ some n
unfolding decimal
positive_number-decimal n p = positive_number-decimal_from (suc n) n (omega arith) p
