-- ===== src/Prelude/Decide.antt =====
-- The derived equality of records, from decidable equality of texts and numbers.
use mathlib.Core.Path.{◌≡◌, refl}
use mathlib.Core.Bool.{Bool, true, false}
use Prim.Native.String.{String}
use native.Mathlib.Omega.{arith}
use lam.Prelude.Classes.{◌==◌, string_eq, ==→≡, ≡→==}

decided : (a b : String) (r : Bool) → (a == b) ≡ r → Dec (a ≡ b)
decided a b true e = yes (==→≡ e)
decided a b false e = no (λ h. ground (arith, ≡→== h))

unfoldable pub string_discrete : Discrete String
unfolding decided
string_discrete a b = decided a b (a == b) refl

-- `==`, from a decision
abbrev pub is_yes {ℓ} : {P : Type ℓ} → Dec P → Bool
is_yes (yes _) = true
is_yes (no _) = false
