-- ===== src/Provider/Build/WellFormed.antt =====
-- What `build_provider` guarantees of a provider that it returns (services/provider_v2.rs).
use lam.Prelude.{
  String, ◌≡◌, refl, Bool, true, false, not, ◌==◌, string_eq, eq_iff, Option, List, [], ◌∷◌, arith,
  Bool-cases, inl, inr, if◌then◌else◌, subst,
}
use lam.Prelude.Keyed.{has, IsUnique, sort, has-sort, IsUnique-sort}
use lam.Prelude.Text.{is_empty, valid_id_text}
use lam.Errors.{
  ok, err, passed_on, guard, error, provider_model_duplicate, provider_default_model_missing, ◌>>=◌,
  ◌>>◌,
}
use lam.Provider.{
  ProviderProtocol, responses, chat_completions, ProviderModel, AdapterConfig, no_adapter,
  local_adapter, ProviderProfileV2,
}
use lam.Provider.Credentials.{validate_upstream_auth}
use lam.Provider.Build.{
  ProviderInput, Url, model_id, required_trimmed, validate_provider_id, check_models,
  validate_models, validate_adapter, build_provider, codex_of, one_of, reserved_provider_ids,
  canonicalize_base_url, validate_compatibility, validate_codex_options,
}

-- an adapter that the protocol allows, by a known id
abbrev pub adapter_fits : ProviderProtocol → AdapterConfig → Bool
adapter_fits protocol no_adapter = true
adapter_fits responses (local_adapter id path) = false
adapter_fits chat_completions (local_adapter id path) = id == "responses_to_chat_completions"

abbrev pub goes_direct : ProviderProtocol → Bool → Bool
goes_direct responses via_gateway = not via_gateway
goes_direct chat_completions via_gateway = true

pub record IsWellFormed (header_name : String → Option String) (p : ProviderProfileV2)
    : Type 0 where
  pub id_text : valid_id_text p.id ≡ true
  pub id_free : one_of p.id reserved_provider_ids ≡ false
  pub name_text : is_empty p.name ≡ false
  pub models_unique : IsUnique model_id p.models
  pub default_listed : has model_id p.default_model p.models ≡ true
  pub adapter_ok : adapter_fits p.protocol p.adapter ≡ true
  pub auth_ok : validate_upstream_auth header_name p.upstream_auth ≡ ok tt
  pub direct_ok : goes_direct p.protocol p.codex.route_via_gateway ≡ true

-- The checked models have distinct ids, and none of those seen before.
record Fresh (seen : List String) (checked : List ProviderModel) : Type 0 where
  unique : IsUnique model_id checked
  unseen : (s : String) → one_of s seen ≡ true → has model_id s checked ≡ false

check_models-Fresh :
    (models : List ProviderModel) (seen : List String) (checked : List ProviderModel)
    → check_models seen models ≡ ok checked
    → Fresh seen checked
unfolding check_models
check_models-Fresh [] seen [] h = record { unique = tt; unseen = λ s e. refl }
check_models-Fresh [] seen (c ∷ checked) h = cc
check_models-Fresh (m ∷ models) seen checked h =
    let (id, trimmed, h1) = passed_on _ (required_trimmed m.id) _ h in
    let (label, labelled, h2) = passed_on _ (required_trimmed m.label) _ h1 in
    split (λ id rest r. check_models-Fresh models (id ∷ seen) rest r) id label h2
  where
    add :
        (id label : String) (rest : List ProviderModel)
        → one_of id seen ≡ false
        → Fresh (id ∷ seen) rest
        → Fresh seen (record m { id = id; label = label } ∷ rest)
    add id label rest new f = record {
      unique = (f.unseen id (ground (arith, eq_iff id id)), f.unique);
      unseen = λ s e. ground (arith, f.unseen s, eq_iff id s, e, new);
    }

    split :
        ((id : String)
          → (rest : List ProviderModel) → check_models (id ∷ seen) models ≡ ok rest
          → Fresh (id ∷ seen) rest)
        → (id label : String)
        → (if one_of id seen
            then err (error provider_model_duplicate)
            else (check_models (id ∷ seen) models >>= λ rest.
                ok (record m { id = id; label = label } ∷ rest)))
          ≡ ok checked
        → Fresh seen checked
    split ih id label e = elim (Bool-cases (one_of id seen)) [
      | inl old ↦ ground (arith, rw old at e)
      | inr new ↦
          let (rest, r, same) = passed_on _ (check_models (id ∷ seen) models) _ (rw new at e) in
          subst (Fresh seen) (ground (arith, same)) (add id label rest new (ih id rest r))
    ]

module _ (header_name : String → Option String) (parse_url : String → Option Url)
    (is_rfc3339 : String → Bool) where
  build_provider-fields :
      (input : ProviderInput) (now : String) (p : ProviderProfileV2)
      → build_provider header_name parse_url is_rfc3339 input now ≡ ok p
      → (validate_provider_id input.id ≡ ok p.id)
        × (required_trimmed input.name ≡ ok p.name)
        × (validate_models input.models input.default_model ≡ ok (p.models, p.default_model))
        × (validate_adapter p.protocol input.adapter ≡ ok p.adapter)
        × (validate_upstream_auth header_name p.upstream_auth ≡ ok tt)
        × (p.codex ≡ codex_of input)
        × (p.protocol ≡ input.protocol)
  unfolding build_provider
  build_provider-fields input now p h =
      let (_, _, h1) = passed_on _ (guard (is_rfc3339 now) _) _ h in
      let (id, i, h2) = passed_on _ (validate_provider_id input.id) _ h1 in
      let (name, n, h3) = passed_on _ (required_trimmed input.name) _ h2 in
      let (base_url, _, h4) = passed_on _ (canonicalize_base_url parse_url input.base_url) _ h3 in
      let (models, ms, h5) = passed_on _ (validate_models input.models input.default_model) _ h4 in
      let (adapter, a, h6) = passed_on _ (validate_adapter input.protocol input.adapter) _ h5 in
      let (compatible, _, h7) =
        passed_on _ (validate_compatibility input.compatibility_profile) _ h6 in
      let (_, u, h8) = passed_on _ (validate_upstream_auth header_name input.upstream_auth) _ h7 in
      let (_, _, h9) = passed_on _ (validate_codex_options header_name (codex_of input)) _ h8 in
      (
        ground arith,
        ground arith,
        ground arith,
        ground arith,
        ground arith,
        ground arith,
        ground arith,
      )

  validate_provider_id-text :
      (input id : String)
      → validate_provider_id input ≡ ok id
      → (valid_id_text id ≡ true) × (one_of id reserved_provider_ids ≡ false)
  unfolding validate_provider_id
  validate_provider_id-text input id h = (ground arith, ground arith)

  adapter-fits :
      (protocol : ProviderProtocol) (adapter a : AdapterConfig)
      → validate_adapter protocol adapter ≡ ok a
      → adapter_fits protocol a ≡ true
  unfolding validate_adapter
  adapter-fits protocol no_adapter a h = ground arith
  adapter-fits responses (local_adapter id path) a h = ground arith
  adapter-fits chat_completions (local_adapter id path) a h = ground arith

  sorted-listed :
      (rest checked : List ProviderModel) (default chosen : String)
      → IsUnique model_id rest
      → ◌>>◌ {B = List ProviderModel × String}
          (guard (has model_id default rest) (error provider_default_model_missing))
          (ok (sort model_id rest, default))
        ≡ ok (checked, chosen)
      → IsUnique model_id checked × (has model_id chosen checked ≡ true)
  sorted-listed rest checked default chosen u h =
      let (_, listed, same) = passed_on _ (guard (has model_id default rest) _) _ h in
      let models : sort model_id rest ≡ checked = ground arith in
      (
        subst (λ xs. IsUnique model_id xs) models (IsUnique-sort model_id rest u),
        ground (arith, has-sort model_id default rest),
      )

  validate_models-listed :
      (models : List ProviderModel) (default_model : String) (checked : List ProviderModel)
      (chosen : String)
      → validate_models models default_model ≡ ok (checked, chosen)
      → IsUnique model_id checked × (has model_id chosen checked ≡ true)
  unfolding validate_models
  validate_models-listed models default_model checked chosen h =
      let (default, _, h1) = passed_on _ (required_trimmed default_model) _ h in
      let (rest, r, h2) = passed_on _ (check_models [] models) _ h1 in
      sorted-listed rest checked default chosen (check_models-Fresh models [] rest r).unique h2

  required_trimmed-text :
      (value text : String) → required_trimmed value ≡ ok text → is_empty text ≡ false
  unfolding required_trimmed
  required_trimmed-text value text h = ground arith

  codex_of-direct :
      (input : ProviderInput) → goes_direct input.protocol (codex_of input).route_via_gateway ≡ true
  unfolding codex_of
  codex_of-direct input = ground arith

  -- A provider that `build_provider` returns has an id in the allowed characters that is not reserved,
  -- a name, models with distinct ids and the default among them, an adapter that its protocol takes,
  -- valid authentication, and no gateway if it answers the Responses protocol.
  pub build_provider-IsWellFormed :
      (input : ProviderInput) (now : String) (p : ProviderProfileV2)
      → build_provider header_name parse_url is_rfc3339 input now ≡ ok p
      → IsWellFormed header_name p
  build_provider-IsWellFormed input now p h =
      let (i, n, ms, a, u, c, pr) = build_provider-fields input now p h in
      let (text, free) = validate_provider_id-text input.id p.id i in
      let (unique, listed) =
        validate_models-listed input.models input.default_model p.models p.default_model ms in
      record {
        id_text = text;
        id_free = free;
        name_text = required_trimmed-text input.name p.name n;
        models_unique = unique;
        default_listed = listed;
        adapter_ok = adapter-fits p.protocol input.adapter p.adapter a;
        auth_ok = u;
        direct_ok = rw c (rw pr (codex_of-direct input));
      }
