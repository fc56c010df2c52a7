-- ===== src/Attach/Editor.antt =====
-- services/provider_config_editor.rs: the edits of Codex's configuration. A TOML document and its items
-- come from the toml_edit crate; `TomlEdit` is what is used of it, by the places of items. `Apply` has the
-- edits.
pub mod Apply
pub mod Items
pub mod Recorded
pub mod Restored
mod Examples
use lam.Prelude.{
  ℕ, String, Bool, true, false, not, ◌&&◌, ◌||◌, ◌==◌, string_eq, Option, none, some, List, [], ◌∷◌,
  ◌++◌, any, map, is_some, if◌then◌else◌,
}
use lam.Prelude.Keyed.{has, insert_sorted}
use lam.Prelude.Text.{contains}
use lam.Errors.{
  Result, ok, err, error, guard, ok_or, ◌>>=◌, ◌>>◌, codex_config_conflict, codex_config_invalid,
  codex_config_ownership_conflict, codex_config_secret_conflict,
  codex_config_static_headers_unsupported, codex_config_auth_conflict, codex_auth_not_materialized,
}
use lam.Binding.{BTreeMap, map_key}
use lam.Provider.{ℤ, pos, CodexProviderOptions}
use lam.Provider.Credentials.{
  DirectCodexAuth, env_key, env_header, command, keychain_item, approved_command, native_api_key,
  through_gateway, no_codex_auth, validate_codex_security_options,
}
use lam.Attach.Journal.{ConfigManagedProjection}
use lam.Attach.Config.{ConfigProjectionSpec, AppliedProjection}
use lam.Attach.Coordinator.{ConfigEditor}

-- `doc[key]`, and `doc["model_providers"][id][key]`
pub data Place : Type 0 where
  top : String → Place
  inner : String → String → Place

pub record TomlEdit (Doc Item : Type 0) : Type 0 where
  pub parse : String → Option Doc
  pub print : Doc → String
  -- the text parses as `toml::Value`
  pub is_toml : String → Bool
  pub get : Place → Doc → Option Item
  -- in a provider's entry that is a table; where it is none, the crate makes an inline table or panics
  pub set : Place → Item → Doc → Doc
  -- a provider's key is removed where its entry is a table
  pub remove : Place → Doc → Doc
  -- the provider's entry is a table, and not an inline one
  pub is_table : String → Doc → Bool
  -- `model_providers` is a table; an empty one is put there; it is empty; it is removed
  pub has_providers : Doc → Bool
  pub new_providers : Doc → Doc
  pub is_empty_providers : Doc → Bool
  pub remove_providers : Doc → Doc
  -- the same of a provider's entry in it
  pub has_table : String → Doc → Bool
  pub new_table : String → Doc → Doc
  pub is_empty_table : String → Doc → Bool
  pub remove_table : String → Doc → Doc
  -- `to_string().trim()` of an item, and back: as a value, and as the table `[auth]`
  pub text_of : Item → String
  pub value_of : String → Option Item
  pub auth_of : String → Option Item
  pub of_string : String → Item
  pub of_int : ℤ → Item
  pub of_bool : Bool → Item
  -- an inline table of texts, added to one that is there
  pub of_table : Option Item → BTreeMap String → Item
  -- the table of a command: its path and arguments, a timeout and a refresh interval
  pub of_command : String → List String → ℕ → ℕ → Item

abbrev pub top_keys : List String
top_keys =
    "model" ∷ "model_provider" ∷ "model_catalog_json" ∷ "model_context_window"
    ∷ "model_auto_compact_token_limit" ∷ "model_reasoning_effort" ∷ "cli_auth_credentials_store"
    ∷ []

unfoldable pub place_of : String → String → Place
place_of id key = if any (λ k. k == key) top_keys then top key else inner id key

-- `push` if the condition holds
abbrev only : Bool → String → List String
only b key = if b then key ∷ [] else []

unfoldable pub auth_keys : DirectCodexAuth → List String
auth_keys (env_key _) = "env_key" ∷ []
auth_keys (env_header _ _) = "env_http_headers" ∷ []
auth_keys (command _ _ _) = "auth" ∷ []
auth_keys native_api_key = "cli_auth_credentials_store" ∷ "requires_openai_auth" ∷ []
auth_keys (keychain_item _ _ _) = "unresolved_auth" ∷ []
auth_keys (approved_command _) = "unresolved_auth" ∷ []
auth_keys through_gateway = "unresolved_auth" ∷ []
auth_keys no_codex_auth = []

abbrev is_filled : BTreeMap String → Bool
is_filled [] = false
is_filled (_ ∷ _) = true

unfoldable pub managed_keys : ConfigProjectionSpec → List String
unfolding auth_keys
managed_keys spec =
    let keys =
      "model"
      ∷ "model_provider"
      ∷ "model_catalog_json"
      ∷ "model_context_window"
      ∷ "model_auto_compact_token_limit"
      ∷ "model_reasoning_effort"
      ∷ "name"
      ∷ "base_url"
      ∷ "wire_api"
      ∷ auth_keys spec.auth in
    keys
    ++ ((if spec.gateway
          then "request_max_retries" ∷ "stream_max_retries" ∷ []
          else (only (is_some spec.codex.direct_request_max_retries) "request_max_retries"
              ++ only (is_some spec.codex.direct_stream_max_retries) "stream_max_retries"))
        ++ (only (is_some spec.codex.stream_idle_timeout_ms) "stream_idle_timeout_ms"
            ++ (only (is_filled spec.codex.query_params) "query_params"
                ++ only
                    (is_filled spec.codex.env_http_headers
                      && not (any (λ k. k == "env_http_headers") keys))
                    "env_http_headers")))

-- `collect` to a `BTreeMap`: a later entry replaces an earlier one
unfoldable pub collect : {V : Type 0} → List (String × V) → BTreeMap V
collect [] = []
collect (x ∷ xs) =
    let rest = collect xs in if has map_key x.0 rest then rest else insert_sorted map_key x rest

module _ {Doc Item : Type 0} (toml : TomlEdit Doc Item) where
  unfoldable pub parse_doc : String → Result Doc
  parse_doc source = ok_or (toml.parse source) (error codex_config_invalid)

  abbrev pub texted : Option Item → Option String
  texted none = none
  texted (some item) = some (toml.text_of item)

  unfoldable pub item_string : String → Doc → String → Option String
  item_string id doc key = texted (toml.get (place_of id key) doc)

  -- the item that a text is read back as
  unfoldable pub item_of : String → String → Option Item
  item_of key text = if key == "auth" then toml.auth_of text else toml.value_of text

  -- The source's index panics where the provider's entry is neither a table nor missing, which is left out.
  unfoldable pub restore_item : String → Doc → String → Option String → Result Doc
  unfolding item_of
  restore_item id doc key none = ok (toml.remove (place_of id key) doc)
  restore_item id doc key (some text) =
      ok_or (item_of key text) (error codex_config_invalid) >>= λ item.
      ok (toml.set (place_of id key) item doc)

  -- the loops over `previous_values` and `managed_values`
  unfoldable pub restore_items : String → BTreeMap (Option String) → Doc → Result Doc
  unfolding restore_item
  restore_items id [] doc = ok doc
  restore_items id ((key, previous) ∷ rest) doc =
      restore_item id doc key previous >>= λ next. restore_items id rest next

  -- `item_string(..).as_deref() != Some(expected)` for no entry
  unfoldable pub check_owned : String → BTreeMap String → Doc → Result (Unit {0})
  unfolding item_string
  check_owned id [] doc = ok tt
  check_owned id ((key, expected) ∷ rest) doc =
      guard (elim (item_string id doc key) [ none ↦ false | some text ↦ text == expected ])
        (error codex_config_ownership_conflict)
      >> check_owned id rest doc
