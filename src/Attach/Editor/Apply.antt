-- ===== src/Attach/Editor/Apply.antt =====
-- services/provider_config_editor.rs: a projection is applied to a configuration, taken away, and applied
-- again.
use lam.Prelude.{
  ◌&&◌, Bool, ◌^◌, ◌-◌, ltb, ℕ, String, true, not, ◌==◌, string_eq, Option, none, some, List, [],
  ◌∷◌, map, is_some, if◌then◌else◌,
}
use lam.Prelude.Text.{contains}
use lam.Errors.{
  Result, ok, err, error, guard, ◌>>=◌, ◌>>◌, codex_config_conflict, codex_config_invalid,
  codex_config_secret_conflict, codex_config_static_headers_unsupported, codex_config_auth_conflict,
  codex_auth_not_materialized,
}
use lam.Binding.{BTreeMap}
use lam.Provider.{ℤ, pos, negsuc}
use lam.Provider.Credentials.{
  DirectCodexAuth, env_key, env_header, command, native_api_key, no_codex_auth,
  validate_codex_security_options,
}
use lam.Attach.Journal.{ConfigManagedProjection}
use lam.Attach.Config.{ConfigProjectionSpec, AppliedProjection}
use lam.Attach.Coordinator.{ConfigEditor}
use lam.Attach.Editor.{
  TomlEdit, top, inner, managed_keys, is_filled, collect, parse_doc, item_string, restore_items,
  check_owned,
}

-- what `clear_auth` removes
abbrev pub auth_item_keys : List String
auth_item_keys = "env_key" ∷ "env_http_headers" ∷ "auth" ∷ "requires_openai_auth" ∷ []

-- `v as i64` of a u64
unfoldable pub as_i64 : ℕ → ℤ
as_i64 n = if ltb n (2 ^ 63) then pos n else negsuc (2 ^ 64 - n - 1)

module _ {Doc Item : Type 0} (toml : TomlEdit Doc Item) where
  unfoldable pub ensure_provider_table : String → Doc → Doc
  ensure_provider_table id doc =
      let held = if toml.has_providers doc then doc else toml.new_providers doc in
      if toml.has_table id held then held else toml.new_table id held

  -- the tables that a detachment leaves empty are removed
  unfoldable pub swept : Bool → String → Doc → Doc
  swept created id doc =
      let kept = if created && toml.is_empty_table id doc then toml.remove_table id doc else doc in
      if toml.is_empty_providers kept then toml.remove_providers kept else kept

  abbrev in_provider : String → String → Item → Doc → Doc
  in_provider id key item doc = toml.set (inner id key) item doc

  abbrev at_top : String → Item → Doc → Doc
  at_top key item doc = toml.set (top key) item doc

  abbrev set_some {ℓ} : {A : Type ℓ} → Option A → (A → Doc → Doc) → Doc → Doc
  set_some none write doc = doc
  set_some (some a) write doc = write a doc

  unfoldable pub clear_auth : String → List String → Doc → Doc
  clear_auth id [] doc = doc
  clear_auth id (key ∷ keys) doc = clear_auth id keys (toml.remove (inner id key) doc)

  unfoldable pub apply_auth : String → DirectCodexAuth → Doc → Result Doc
  apply_auth id (env_key name) doc = ok (in_provider id "env_key" (toml.of_string name) doc)
  apply_auth id (env_header header name) doc =
      ok (in_provider id "env_http_headers" (toml.of_table none ((header, name) ∷ [])) doc)
  apply_auth id (command _ path args) doc =
      ok (in_provider id "auth" (toml.of_command path args 5_000 0) doc)
  apply_auth id native_api_key doc = ok (
      in_provider id "requires_openai_auth" (toml.of_bool true)
        (at_top "cli_auth_credentials_store" (toml.of_string "file") doc))
  apply_auth id no_codex_auth doc = ok doc
  apply_auth id _ doc = err (error codex_auth_not_materialized)

  -- a number of retries
  abbrev retries : String → String → Option ℕ → Doc → Doc
  retries id key limit = set_some limit λ (n : ℕ). in_provider id key (toml.of_int (pos n))

  unfoldable pub apply_retries : String → ConfigProjectionSpec → Doc → Doc
  apply_retries id spec doc =
      if spec.gateway
      then in_provider id "stream_max_retries" (toml.of_int (pos 0))
          (in_provider id "request_max_retries" (toml.of_int (pos 0)) doc)
      else retries id "stream_max_retries" spec.codex.direct_stream_max_retries
          (retries id "request_max_retries" spec.codex.direct_request_max_retries doc)

  unfoldable pub apply_options : String → ConfigProjectionSpec → Doc → Doc
  unfolding apply_retries as_i64
  apply_options id spec doc =
      let timed =
        set_some spec.codex.stream_idle_timeout_ms
          (λ (n : ℕ). in_provider id "stream_idle_timeout_ms" (toml.of_int (as_i64 n)))
          (apply_retries id spec doc) in
      let queried =
        if is_filled spec.codex.query_params
        then in_provider id "query_params" (toml.of_table none spec.codex.query_params) timed
        else timed in
      if is_filled spec.codex.env_http_headers
      then in_provider id "env_http_headers"
          (toml.of_table (toml.get (inner id "env_http_headers") queried)
            spec.codex.env_http_headers)
          queried
      else queried

  -- the keys at the top, then those of the provider
  unfoldable pub set_values : ConfigProjectionSpec → Doc → Doc
  set_values spec doc =
      let id = spec.provider_id in
      let first = at_top "model_catalog_json" (toml.of_string spec.model_catalog_path) (
        at_top "model_provider" (toml.of_string id)
          (at_top "model" (toml.of_string spec.model) doc)) in
      let windows =
        set_some spec.model_auto_compact_token_limit
          (λ (n : ℤ). at_top "model_auto_compact_token_limit" (toml.of_int n))
          (set_some spec.model_context_window
            (λ (n : ℤ). at_top "model_context_window" (toml.of_int n)) first) in
      let reasoned =
        set_some spec.reasoning_effort
          (λ (t : String). at_top "model_reasoning_effort" (toml.of_string t)) windows in
      in_provider id "wire_api" (toml.of_string "responses") (
        in_provider id "base_url" (toml.of_string spec.base_url)
          (in_provider id "name" (toml.of_string spec.display_name) reasoned))

  -- the entries of the keys that have an item
  unfoldable pub found_values : (String → Option String) → List String → List (String × String)
  found_values value [] = []
  found_values value (key ∷ keys) =
      let rest = found_values value keys in
      elim (value key) [ none ↦ rest | some text ↦ (key, text) ∷ rest ]

  unfoldable pub replace_provider_auth :
      String → DirectCodexAuth → Doc → Result (Doc × Option String)
  unfolding clear_auth apply_auth item_string
  replace_provider_auth id auth doc =
      apply_auth id auth (clear_auth id auth_item_keys doc) >>= λ next.
      ok (next, item_string toml id next "auth")

  unfoldable pub validate_managed_projection : String → String → BTreeMap String → Result (Unit {0})
  unfolding parse_doc check_owned
  validate_managed_projection source id managed_values =
      parse_doc toml source >>= λ doc. check_owned toml id managed_values doc

  unfoldable pub detach_projection : String → ConfigManagedProjection → Result String
  unfolding parse_doc check_owned restore_items swept
  detach_projection source p = parse_doc toml source >>= λ doc.
      check_owned toml p.provider_id p.managed_values doc
      >> (restore_items toml p.provider_id p.previous_values doc >>= λ restored.
          ok (toml.print (swept p.provider_table_created_by_lam p.provider_id restored)))

  -- `Some(managed)` for each value
  unfoldable pub all_some : BTreeMap String → BTreeMap (Option String)
  all_some [] = []
  all_some ((key, text) ∷ rest) = (key, some text) ∷ all_some rest

  -- a text that is a TOML document is returned
  unfoldable pub checked_toml : String → Result String
  checked_toml contents = guard (toml.is_toml contents) (error codex_config_invalid) >> ok contents

  unfoldable pub reapply_managed_projection : String → ConfigManagedProjection → Result String
  unfolding parse_doc restore_items all_some checked_toml ensure_provider_table
  reapply_managed_projection source p = parse_doc toml source >>= λ doc.
      restore_items toml p.provider_id (all_some p.managed_values)
        (ensure_provider_table p.provider_id doc)
      >>= λ applied. checked_toml (toml.print applied)

  module _ (config_hash : String → String) (header_name : String → Option String) where
    -- the checks of the source and of the document, before and after the provider's table is made
    unfoldable pub open_config : String → String → ConfigProjectionSpec → Result Doc
    unfolding contains validate_codex_security_options parse_doc
    open_config source expected_hash spec =
        guard (config_hash source == expected_hash) (error codex_config_conflict)
        >> (guard (not (contains "experimental_bearer_token" source))
              (error codex_config_secret_conflict)
            >> (validate_codex_security_options header_name spec.codex
                >> (parse_doc toml source >>= λ doc.
                    guard (not (is_some (toml.get (inner spec.provider_id "http_headers") doc)))
                      (error codex_config_static_headers_unsupported)
                    >> ok doc)))

    unfoldable pub apply_projection :
        String → String → ConfigProjectionSpec → Result AppliedProjection
    unfolding open_config ensure_provider_table managed_keys collect item_string set_values
        clear_auth apply_auth apply_options checked_toml found_values
    apply_projection source expected_hash spec = open_config source expected_hash spec >>= λ opened.
        let id = spec.provider_id in
        let doc = ensure_provider_table id opened in
        guard (not (is_some (toml.get (inner id "auth") doc))) (error codex_config_auth_conflict)
        >> (apply_auth id spec.auth (clear_auth id auth_item_keys (set_values spec doc))
            >>= λ authed.
                let applied = apply_options id spec authed in
                checked_toml (toml.print applied) >>= λ contents. ok (record {
                  contents = contents;
                  projection = record {
                    before_hash = expected_hash;
                    applied_hash = config_hash contents;
                    provider_id = id;
                    previous_values =
                        collect
                          (map (λ key. (key, item_string toml id doc key)) (managed_keys spec));
                    managed_values =
                        collect (found_values (item_string toml id applied) (managed_keys spec));
                    provider_table_created_by_lam = not (toml.has_table id opened);
                  };
                  backup_path = none;
                }))

    -- what the coordinator uses
    abbrev pub config_editor : ConfigEditor
    config_editor = record {
      apply_projection = apply_projection;
      detach_projection = detach_projection;
      reapply_managed_projection = reapply_managed_projection;
    }
