-- ===== src/Attach/Editor/Recorded.antt =====
-- What `apply_projection` records can be taken away again (services/provider_config_editor.rs): the record of
-- the earlier values is one that a detachment restores.
use lam.Prelude.{
  String, Bool, true, false, not, ◌==◌, string_eq, eq_iff, Option, none, some, List, [], ◌∷◌, map,
  is_some, All, ◌≡◌, refl, ◌∙◌, ap, sym, arith, Bool-cases, inl, inr,
}
use lam.Prelude.Keyed.{has, IsUnique, IsUnique-insert_sorted}
use lam.Prelude.Keyed.Every.{All-insert_sorted}
use lam.Errors.{Result, ok, error, guard, passed_on, codex_config_auth_conflict}
use lam.Binding.{map_key}
use lam.Attach.Config.{ConfigProjectionSpec, AppliedProjection}
use lam.Attach.Editor.{TomlEdit, inner, place_of, managed_keys, collect, item_string}
use lam.Attach.Editor.Apply.{
  open_config, ensure_provider_table, apply_projection, apply_auth, clear_auth, auth_item_keys,
  set_values, checked_toml, apply_options,
}
use lam.Attach.Editor.Items.{IsRecorded}

module _ {V : Type 0} where
  pub collect-IsUnique : (xs : List (String × V)) → IsUnique map_key (collect xs)
  unfolding collect
  collect-IsUnique [] = tt
  collect-IsUnique (x ∷ xs) = elim (Bool-cases (has map_key x.0 (collect xs))) [
    | inl e ↦ rw e (collect-IsUnique xs)
    | inr e ↦ rw e (IsUnique-insert_sorted map_key x (collect xs) e (collect-IsUnique xs))
  ]

  collect-All : (P : String × V → Type 0) (xs : List (String × V)) → All P xs → All P (collect xs)
  unfolding collect
  collect-All P [] h = tt
  collect-All P (x ∷ xs) h = elim (Bool-cases (has map_key x.0 (collect xs))) [
    | inl e ↦ rw e (collect-All P xs h.1)
    | inr e ↦ rw e (All-insert_sorted map_key P x (collect xs) h.0 (collect-All P xs h.1))
  ]

module _ {Doc Item : Type 0} (toml : TomlEdit Doc Item) (id : String) (doc : Doc) where
  value-IsRecorded :
      (key : String)
      → is_some (toml.get (inner id "auth") doc) ≡ false
      → IsRecorded toml (key, item_string toml id doc key)
  unfolding item_string
  value-IsRecorded key free = go (toml.get (place_of id key) doc) refl
    where
      auth_place : place_of id "auth" ≡ inner id "auth"
      auth_place = unfold place_of in refl

      other : (item : Item) → toml.get (place_of id key) doc ≡ some item → (key == "auth") ≡ false
      other item e = elim (Bool-cases (key == "auth")) [
        | inl f ↦
            let same : key ≡ "auth" = (eq_iff key "auth").0 f in
            let there : toml.get (inner id "auth") doc ≡ some item =
              ap (λ (p : _). toml.get p doc) (sym auth_place)
              ∙ ap (λ (k : String). toml.get (place_of id k) doc) (sym same)
              ∙ e in
            absurd (ground arith)
        | inr f ↦ f
      ]

      go :
          (o : Option Item)
          → toml.get (place_of id key) doc ≡ o
          → IsRecorded toml (key, item_string toml id doc key)
      go none e = rw e tt
      go (some item) e = rw e (other item e, item, refl)

  values-IsRecorded :
      (keys : List String)
      → is_some (toml.get (inner id "auth") doc) ≡ false
      → All (IsRecorded toml) (map (λ key. (key, item_string toml id doc key)) keys)
  values-IsRecorded [] free = tt
  values-IsRecorded (key ∷ keys) free = (value-IsRecorded key free, values-IsRecorded keys free)

module _ {Doc Item : Type 0} (toml : TomlEdit Doc Item) (config_hash : String → String)
    (header_name : String → Option String) where
  -- What an application records has each key once, and each earlier value as it was printed; a table `auth`
  -- that was there before is refused.
  pub apply_projection-IsRecorded :
      (source expected_hash : String) (spec : ConfigProjectionSpec) (applied : AppliedProjection)
      → apply_projection toml config_hash header_name source expected_hash spec ≡ ok applied
      → IsUnique map_key applied.projection.previous_values
        × All (IsRecorded toml) applied.projection.previous_values
  unfolding apply_projection
  apply_projection-IsRecorded source expected_hash spec applied h =
      let id = spec.provider_id in
      let (opened, _, h1) =
        passed_on _ (open_config toml config_hash header_name source expected_hash spec) _ h in
      let doc : Doc = ensure_provider_table toml id opened in
      let (_, refused, h2) =
        passed_on _
          (guard (not (is_some (toml.get (inner id "auth") doc)))
            (error codex_config_auth_conflict))
          _ h1 in
      let free : is_some (toml.get (inner id "auth") doc) ≡ false =
        unclaimed (is_some (toml.get (inner id "auth") doc)) refused in
      let (authed, _, h3) =
        passed_on _
          (apply_auth toml id spec.auth
            (clear_auth toml id auth_item_keys (set_values toml spec doc)))
          _ h2 in
      let (contents, _, h4) =
        passed_on _ (checked_toml toml (toml.print (apply_options toml id spec authed))) _ h3 in
      let entries : List (String × Option String) =
        map (λ key. (key, item_string toml id doc key)) (managed_keys spec) in
      let same : collect entries ≡ applied.projection.previous_values = recorded _ applied h4 in
      rw (← same) (
        collect-IsUnique entries,
        collect-All (IsRecorded toml) entries
            (values-IsRecorded toml id doc (managed_keys spec) free),
      )
    where
      unclaimed : (b : Bool) → guard (not b) (error codex_config_auth_conflict) ≡ ok tt → b ≡ false
      unclaimed true e = absurd (ground arith)
      unclaimed false e = refl

      recorded :
          (a b : AppliedProjection)
          → ◌≡◌ {A = Result AppliedProjection} (ok a) (ok b)
          → a.projection.previous_values ≡ b.projection.previous_values
      recorded a b e =
          let same : a ≡ b = ground arith in
          ap (λ (x : AppliedProjection). x.projection.previous_values) same
