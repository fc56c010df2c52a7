-- ===== src/Gateway/Binding/Digest.antt =====
-- `constant_time_eq` of services/gateway/binding.rs compares two digests of one length like `==`.
use Prim.Native.Nat.{max, digits, differ, bit_or, bit_xor, bit_or-bitwise, bit_xor-bitwise}
use lam.Prelude.{
  ℕ, zero, suc, ◌/◌, ◌%◌, ◌≤◌, true, nat_eq, List, [], ◌∷◌, length, ◌≡◌, refl, ◌∙◌, ap, sym, arith,
}
use lam.Gateway.Binding.{difference_of, constant_time_eq}

-- an or of digits is zero only for zeros
digits-max : (n a b : ℕ) → a ≤ n → digits (λ b. b) max n a b ≡ 0 → (a ≡ 0) × (b ≡ 0)
digits-max zero a b h e = (omega arith, e)
digits-max (suc n) zero b h e = (refl, e)
digits-max (suc n) (suc a) b h e =
    let (p, q) = digits-max n (suc a / 2) (b / 2) (omega arith) (omega arith) in
    absurd (omega arith)

differ_eq : (x y : ℕ) → differ x y ≡ 0 → x ≡ y
differ_eq zero y h = sym h
differ_eq (suc x) zero h = h
differ_eq (suc x) (suc y) h = ap suc (differ_eq x y h)

differ_own : (x : ℕ) → differ x x ≡ 0
differ_own zero = refl
differ_own (suc x) = differ_own x

-- an exclusive or of digits is zero exactly for the same
digits-differ : (n a b : ℕ) → a ≤ n → digits (λ b. b) differ n a b ≡ 0 → a ≡ b
digits-differ zero a b h e = omega arith
digits-differ (suc n) zero b h e = sym e
digits-differ (suc n) (suc a) b h e =
    let p = digits-differ n (suc a / 2) (b / 2) (omega arith) (omega arith) in
    let q = differ_eq (suc a % 2) (b % 2) (omega arith) in omega arith

digits-differ_own : (n a : ℕ) → a ≤ n → digits (λ b. b) differ n a a ≡ 0
digits-differ_own zero a h = omega arith
digits-differ_own (suc n) zero h = refl
digits-differ_own (suc n) (suc a) h =
    omega (arith, digits-differ_own n (suc a / 2) (omega arith), differ_own (suc a % 2))

or_zero : (a b : ℕ) → bit_or a b ≡ 0 → (a ≡ 0) × (b ≡ 0)
or_zero a b h = digits-max a a b (omega arith) (sym (bit_or-bitwise a b) ∙ h)

xor_zero : (a b : ℕ) → bit_xor a b ≡ 0 → a ≡ b
xor_zero a b h = digits-differ a a b (omega arith) (sym (bit_xor-bitwise a b) ∙ h)

xor_own : (a : ℕ) → bit_xor a a ≡ 0
xor_own a = bit_xor-bitwise a a ∙ digits-differ_own a a (omega arith)

difference_zero :
    (ls rs : List ℕ) (d : ℕ)
    → length ls ≡ length rs
    → difference_of ls rs d ≡ 0
    → (d ≡ 0) × (ls ≡ rs)
unfolding difference_of
difference_zero [] [] d l h = (h, refl)
difference_zero [] (r ∷ rs) d l h = absurd (ground arith)
difference_zero (x ∷ ls) [] d l h = absurd (ground arith)
difference_zero (x ∷ ls) (r ∷ rs) d l h =
    let (both, rest) = difference_zero ls rs (bit_or d (bit_xor x r)) (ground arith) h in
    let (old, new) = or_zero d (bit_xor x r) both in
    (old, ap (λ t. t ∷ ls) (xor_zero x r new) ∙ ap (λ t. r ∷ t) rest)

difference_own : (ls : List ℕ) → difference_of ls ls 0 ≡ 0
unfolding difference_of
difference_own [] = refl
difference_own (x ∷ ls) = ap (λ d. difference_of ls ls (bit_or 0 d)) (xor_own x) ∙ difference_own ls

-- Digests of one length compare as equal exactly if they are.
pub same_of_constant_time_eq :
    (ls rs : List ℕ) → length ls ≡ length rs → constant_time_eq ls rs ≡ true → ls ≡ rs
unfolding constant_time_eq
same_of_constant_time_eq ls rs l h = (difference_zero ls rs 0 l (ground arith)).1

pub constant_time_eq_own : (ls : List ℕ) → constant_time_eq ls ls ≡ true
unfolding constant_time_eq
constant_time_eq_own ls = ground (arith, difference_own ls)
