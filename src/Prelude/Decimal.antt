-- ===== src/Prelude/Decimal.antt =====
-- The decimal digits of a u64, as `format!("{}")` prints them.
use Prim.Native.Nat.{ℕ, zero, suc, ◌+◌, ◌*◌, ◌/◌, ◌%◌, ◌^◌, ◌-◌, ◌<◌}
use Prim.Native.Char.{Char, code}
use Prim.Native.String.{String, [], ◌∷◌, char_at}
use mathlib.Core.Path.{◌≡◌, refl, ◌∙◌, ap}
use mathlib.Core.Logic.{inl, inr}
use native.Mathlib.Omega.{arith}
use native.Mathlib.Numerals.{unary_clauses}
use lam.Prelude.Tests.{Bool-cases, ltb, if◌then◌else◌}

digit : ℕ → Char
digit d = char_at "0123456789" d

-- the digits of `n`, of which there are at most `fuel`, before `after`
digits : (fuel : ℕ) → ℕ → String → String
unfolding digit
digits zero n after = after
digits (suc fuel) n after =
    let rest = digits fuel (n / 10) (digit (n % 10) ∷ after) in
    if ltb n 10 then digit n ∷ after else rest

-- 2 ^ 64 has twenty digits
unfoldable pub decimal : ℕ → String
unfolding digits
decimal n = digits 20 n []

decimal_example : decimal 18_446_744_073_709_551_615 ≡ "18446744073709551615"
unfolding decimal
decimal_example = refl

-- the number that digits after `before` denote
unfoldable pub denoted : String → ℕ → ℕ
denoted [] before = before
denoted (c ∷ s) before = denoted s (before * 10 + (code c - b'0'))

code-digit : (d : ℕ) → d < 10 → code (digit d) - b'0' ≡ d
unfolding digit
code-digit zero h = refl
code-digit (suc zero) h = refl
code-digit (suc (suc zero)) h = refl
code-digit (suc (suc (suc zero))) h = refl
code-digit (suc (suc (suc (suc zero)))) h = refl
code-digit (suc (suc (suc (suc (suc zero))))) h = refl
code-digit (suc (suc (suc (suc (suc (suc zero)))))) h = refl
code-digit (suc (suc (suc (suc (suc (suc (suc zero))))))) h = refl
code-digit (suc (suc (suc (suc (suc (suc (suc (suc zero)))))))) h = refl
code-digit (suc (suc (suc (suc (suc (suc (suc (suc (suc zero))))))))) h = refl
code-digit (suc (suc (suc (suc (suc (suc (suc (suc (suc (suc d)))))))))) h = omega arith

denoted-digits :
    (fuel n : ℕ) (after : String)
    → n < 10 ^ fuel
    → denoted (digits fuel n after) 0 ≡ denoted after n
unfolding digits denoted
denoted-digits zero n after h = let none_left : n ≡ 0 = omega arith in rw none_left refl
denoted-digits (suc fuel) n after h =
    let last : n % 10 < 10 = omega arith in
    elim (Bool-cases (ltb n 10)) [
      | inl small ↦ rw small (ap (denoted after) (alone (code-digit n (ground arith))))
      | inr large ↦ rw large (
          denoted-digits fuel (n / 10) (digit (n % 10) ∷ after)
            (smaller (10 ^ fuel) (simp unary_clauses at h))
          ∙ ap (denoted after) (rejoined (code-digit (n % 10) last)))
    ]
  where
    smaller : (p : ℕ) → n < p * 10 → n / 10 < p
    smaller p b = omega arith

    alone : {d : ℕ} → d ≡ n → 0 + d ≡ n
    alone e = omega arith

    rejoined : {d : ℕ} → d ≡ n % 10 → n / 10 * 10 + d ≡ n
    rejoined e = omega arith

-- The digits of a u64 denote it: twenty of them are enough.
pub denoted-decimal : (n : ℕ) → n < 2 ^ 64 → denoted (decimal n) 0 ≡ n
unfolding decimal denoted
denoted-decimal n h = denoted-digits 20 n [] (omega arith)
