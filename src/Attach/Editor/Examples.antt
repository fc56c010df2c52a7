-- ===== src/Attach/Editor/Examples.antt =====
-- A configuration of two keys, in documents that are functions of places
-- (services/provider_config_editor.rs).
use lam.Prelude.{
  String, Bool, true, false, ◌&&◌, ◌==◌, string_eq, Option, none, some, [], ◌∷◌, ◌≡◌, refl, arith,
  ap, if◌then◌else◌, eq_iff, any, Bool-cases, inl, inr,
}
use lam.Errors.{ok}
use lam.Attach.Journal.{ConfigManagedProjection}
use lam.Attach.Editor.{TomlEdit, Place, top, inner, place_of, top_keys, item_of}
use lam.Attach.Editor.Apply.{detach_projection}
use lam.Attach.Editor.Items.{IsTomlEdit}
use lam.Attach.Editor.Restored.{IsDetached, detach_projection-IsDetached}

abbrev same_place : Place → Place → Bool
same_place (top a) (top b) = a == b
same_place (inner i a) (inner j b) = i == j && a == b
same_place _ _ = false

abbrev Doc : Type 0
Doc = Place → Option String

-- `source` is read as this document
abbrev configured : Doc
configured p =
    if same_place (top "model") p
    then some "m"
    else if same_place (inner "acme" "name") p
    then some "Acme"
    else none

abbrev toml : TomlEdit Doc String
toml = record {
  parse = λ text. if text == "source" then some configured else none;
  print = λ doc. "printed";
  is_toml = λ text. true;
  get = λ place doc. doc place;
  set = λ place item doc other. if same_place place other then some item else doc other;
  remove = λ place doc other. if same_place place other then none else doc other;
  is_table = λ id doc. true;
  has_providers = λ doc. true;
  new_providers = λ doc. doc;
  is_empty_providers = λ doc. false;
  remove_providers = λ doc. doc;
  has_table = λ id doc. true;
  new_table = λ id doc. doc;
  is_empty_table = λ id doc. false;
  remove_table = λ id doc. doc;
  text_of = λ item. item;
  value_of = λ text. some text;
  auth_of = λ text. some text;
  of_string = λ text. text;
  of_int = λ n. "0";
  of_bool = λ b. "true";
  of_table = λ old entries. "{}";
  of_command = λ path args timeout interval. path;
}

chosen : Bool → String → String → Place
chosen b id key = if b then top key else inner id key

same_chosen :
    (id j k : String) (a b : Bool)
    → ((j == k) ≡ true → a ≡ b)
    → same_place (chosen a id j) (chosen b id k) ≡ (j == k)
unfolding chosen
same_chosen id j k true true h = refl
same_chosen id j k false false h = ground (arith, eq_iff id id)
same_chosen id j k true false h = differ (j == k) h
  where
    differ : (t : Bool) → (t ≡ true → true ≡ false) → false ≡ t
    differ true h = absurd (ground (arith, h refl))
    differ false h = refl
same_chosen id j k false true h = differ (j == k) h
  where
    differ : (t : Bool) → (t ≡ true → false ≡ true) → false ≡ t
    differ true h = absurd (ground (arith, h refl))
    differ false h = refl

same_key : (id j k : String) → same_place (place_of id j) (place_of id k) ≡ (j == k)
unfolding place_of chosen
same_key id j k =
    same_chosen id j k (any (λ t. t == j) top_keys) (any (λ t. t == k) top_keys)
      λ h. ap (λ x. any (λ t. t == x) top_keys) ((eq_iff j k).0 h)

same_text : (key text item : String) → item_of toml key text ≡ some item → item ≡ text
unfolding item_of
same_text key text item h = elim (Bool-cases (key == "auth")) [
  | inl e ↦ ground (arith, e)
  | inr e ↦ ground (arith, e)
]

abbrev laws : IsTomlEdit toml
laws = record {
  get_set = λ id j k item doc t.
      ap (λ (b : Bool). if b then some item else doc (place_of id k)) (same_key id j k);
  get_remove =
      λ id j k doc t. ap (λ (b : Bool). if b then none else doc (place_of id k)) (same_key id j k);
  table_set = λ id j item doc t. refl;
  table_remove = λ id j doc t. refl;
  get_remove_table = λ id k doc e. refl;
  get_remove_providers = λ id k doc e. refl;
  text_kept = λ key old item t h. same_text key old item h;
}

abbrev acme : ConfigManagedProjection
acme = record {
  before_hash = "h";
  applied_hash = "k";
  provider_id = "acme";
  previous_values = ("model", some "old") ∷ ("name", none) ∷ [];
  managed_values = ("model", "m") ∷ ("name", "Acme") ∷ [];
  provider_table_created_by_lam = false;
}

detached : detach_projection toml "source" acme ≡ ok "printed"
unfolding detach_projection place_of
detached = refl

detach_projection-IsDetached_example : IsDetached toml laws acme "source" "printed"
detach_projection-IsDetached_example =
    detach_projection-IsDetached toml laws acme "source" "printed" configured refl refl
      (refl, (refl, tt)) ((refl, "old", refl), (tt, tt)) detached
