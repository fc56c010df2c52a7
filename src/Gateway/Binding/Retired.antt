-- ===== src/Gateway/Binding/Retired.antt =====
-- A binding that was revoked never authenticates again, whatever operations follow
-- (services/gateway/binding.rs).
pub mod Steps
pub mod Operations
pub mod ForGood
use lam.Prelude.{
  ℕ, String, Bool, true, false, not, ◌&&◌, ◌||◌, ◌==◌, string_eq, Option, none, some, List, [], ◌∷◌,
  ◌++◌, ◌≡◌, ◌≢◌, refl, arith, any, all, All, find, is_some, eq_iff, any-append, all-append,
  any-sort_by, all-sort_by, all-update_first, if◌then◌else◌, subst, sym, ◌∙◌,
}
use lam.Prelude.Keyed.{has, get, update, has-replace, IsUnique}
use lam.Errors.{Result, ok, err}
use lam.Store.{StoreSnapshot}
use lam.Store.Interface.{VersionedStore}
use lam.Keychain.{SecretIo}
use lam.Keychain.Service.{KeychainBackend, Secrets}
use lam.Gateway.Binding.{GatewayBinding, GatewayBindingCollection, id_of}
use lam.Gateway.Binding.Stores.{
  sort_bindings, binding_not_after, with_bindings, revoked_by, pending, revoked_once,
}

-- A binding of this id is stored, and all that have the id are revoked.
abbrev pub is_settled : String → GatewayBinding → Bool
is_settled id b = not (id_of b == id) || is_some b.revoked_at

abbrev pub retired : String → GatewayBindingCollection → Bool
retired id c = has id_of id c.bindings && all (is_settled id) c.bindings

abbrev pub IsRetired : String → GatewayBindingCollection → Type 0
IsRetired id c = retired id c ≡ true

-- a change of a binding that keeps its id and does not take a revocation back
abbrev pub IsSettling : (GatewayBinding → GatewayBinding) → Type 0
IsSettling f =
    (b : GatewayBinding)
    → (id_of (f b) ≡ id_of b) × (is_some b.revoked_at ≡ true → is_some (f b).revoked_at ≡ true)

module _ (id : String) where
  pub all_settled :
      (c : GatewayBindingCollection) → IsRetired id c → all (is_settled id) c.bindings ≡ true
  all_settled c r = ground arith

  pub sorted-IsRetired :
      (bs : List GatewayBinding)
      → IsRetired id (with_bindings bs)
      → IsRetired id (with_bindings (sort_bindings bs))
  sorted-IsRetired bs r = ground (
    arith,
    any-sort_by binding_not_after (λ b. id_of b == id) bs,
    all-sort_by binding_not_after (is_settled id) bs,
  )

  pub push-IsRetired :
      (bs : List GatewayBinding) (b : GatewayBinding)
      → id_of b ≢ id
      → IsRetired id (with_bindings bs)
      → IsRetired id (with_bindings (bs ++ b ∷ []))
  push-IsRetired bs b new r = ground (
    arith,
    any-append (λ x. id_of x == id) bs (b ∷ []),
    all-append (is_settled id) bs (b ∷ []),
    eq_iff (id_of b) id,
  )

  settled :
      (f : GatewayBinding → GatewayBinding)
      → IsSettling f
      → (b : GatewayBinding) → is_settled id b ≡ true
      → is_settled id (f b) ≡ true
  settled f k b h = ground (arith, (k b).0, (k b).1)

  pub update-IsRetired :
      (j : String) (f : GatewayBinding → GatewayBinding) (bs : List GatewayBinding)
      → IsSettling f
      → IsRetired id (with_bindings bs)
      → IsRetired id (with_bindings (update id_of j f bs))
  update-IsRetired j f bs k r = ground (
    arith,
    has-replace id_of j id f bs (λ b e. (k b).0 ∙ e),
    all-update_first (is_settled id) (λ b. id_of b == j) f bs (λ b. settled f k b),
  )

  settled_of_absent :
      (bs : List GatewayBinding) → has id_of id bs ≡ false → all (is_settled id) bs ≡ true
  settled_of_absent [] h = refl
  settled_of_absent (b ∷ bs) h = ground (arith, settled_of_absent bs)

  -- Where ids are distinct, one revoked binding of the id is all there are.
  pub unique-IsRetired :
      (bs : List GatewayBinding) (b : GatewayBinding)
      → IsUnique id_of bs
      → get id_of id bs ≡ some b
      → is_some b.revoked_at ≡ true
      → IsRetired id (with_bindings bs)
  unique-IsRetired [] b u g r = ground arith
  unique-IsRetired (x ∷ bs) b u g r =
      ground (arith, unique-IsRetired bs b u.1, settled_of_absent bs, u.0, eq_iff (id_of x) id)

-- the three changes that the operations make
pub revoked_by-IsSettling : (now : String) → IsSettling (revoked_by now)
revoked_by-IsSettling now b = (refl, λ h. refl)

pub pending-IsSettling : IsSettling pending
pending-IsSettling b = (refl, λ h. h)

pub revoked_once-IsSettling : (now : String) → IsSettling (revoked_once now)
revoked_once-IsSettling now b = (refl, λ h. ground arith)
