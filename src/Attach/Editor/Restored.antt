-- ===== src/Attach/Editor/Restored.antt =====
-- Taking a projection away restores what the configuration had before it
-- (services/provider_config_editor.rs).
use lam.Prelude.{
  String, Bool, true, false, string_eq, ◌&&◌, Option, some, [], ◌∷◌, ◌≡◌, refl, ◌∙◌, arith,
  if◌then◌else◌, All,
}
use lam.Prelude.Keyed.{IsUnique}
use lam.Errors.{◌>>=◌, ◌>>◌, Result, ok, error, ok_or, passed_on, codex_config_invalid}
use lam.Binding.{BTreeMap, map_key}
use lam.Attach.Journal.{ConfigManagedProjection}
use lam.Attach.Editor.{TomlEdit, place_of, parse_doc, restore_items, check_owned}
use lam.Attach.Editor.Apply.{swept, detach_projection}
use lam.Attach.Editor.Items.{
  IsTomlEdit, IsRecorded, same_string, IsOwnedIn, IsRestoredIn, check_owned-All, restore_items-All,
}

module _ {Doc Item : Type 0} (toml : TomlEdit Doc Item) where
  module _ (laws : IsTomlEdit toml) (p : ConfigManagedProjection) where
    -- What a detachment that succeeds returns: each key has its earlier value.
    pub record IsDetached (source contents : String) : Type 0 where
      pub before : Doc
      pub parsed : toml.parse source ≡ some before
      pub owned : All (IsOwnedIn toml p.provider_id before) p.managed_values
      pub after : Doc
      pub printed : contents ≡ toml.print after
      pub restored : All (IsRestoredIn toml p.provider_id after) p.previous_values

    abbrev tidy : Doc → Doc
    tidy doc = swept toml p.provider_table_created_by_lam p.provider_id doc

    abbrev tidied : Doc → Result String
    tidied doc = restore_items toml p.provider_id p.previous_values doc >>= λ restored.
        ok (toml.print (tidy restored))

    swept-get :
        (k : String) (doc : Doc)
        → toml.get (place_of p.provider_id k) (tidy doc) ≡ toml.get (place_of p.provider_id k) doc
    unfolding swept
    swept-get k doc =
        let id = p.provider_id in
        tabled (p.provider_table_created_by_lam && toml.is_empty_table id doc)
          λ e. laws.get_remove_table id k doc (ground (arith, e))
      where
        listed :
            (d : Doc) (b : Bool)
            → toml.is_empty_providers d ≡ b
            → toml.get (place_of p.provider_id k) (if b then toml.remove_providers d else d)
              ≡ toml.get (place_of p.provider_id k) d
        listed d true e = laws.get_remove_providers p.provider_id k d e
        listed d false e = refl

        tabled :
            (b : Bool)
            → (b ≡ true
                → toml.get (place_of p.provider_id k) (toml.remove_table p.provider_id doc)
                  ≡ toml.get (place_of p.provider_id k) doc)
            → let kept = if b then toml.remove_table p.provider_id doc else doc in
              toml.get
                (place_of p.provider_id k)
                (if toml.is_empty_providers kept then toml.remove_providers kept else kept)
              ≡ toml.get (place_of p.provider_id k) doc
        tabled true h =
            let d : Doc = toml.remove_table p.provider_id doc in
            listed d (toml.is_empty_providers d) refl ∙ h refl
        tabled false h = listed doc (toml.is_empty_providers doc) refl

    swept-All :
        (entries : BTreeMap (Option String)) (doc : Doc)
        → All (IsRestoredIn toml p.provider_id doc) entries
        → All (IsRestoredIn toml p.provider_id (tidy doc)) entries
    swept-All [] doc h = tt
    swept-All ((key, previous) ∷ rest) doc h = (
      same_string toml p.provider_id key (tidy doc) doc (swept-get key doc) ∙ h.0,
      swept-All rest doc h.1,
    )

    -- Where a projection is taken away, all that it wrote was still there, and each key that it changed has
    -- its earlier value again, or none if it had none. The provider's entry is a table and not
    -- an inline one, the record of the earlier values has each key once, and each earlier value
    -- that is recorded is the printed text of an item, of another key than `auth`.
    pub detach_projection-IsDetached :
        (source contents : String) (doc : Doc)
        → toml.parse source ≡ some doc
        → toml.is_table p.provider_id doc ≡ true
        → IsUnique map_key p.previous_values
        → All (IsRecorded toml) p.previous_values
        → detach_projection toml source p ≡ ok contents
        → IsDetached source contents
    unfolding detach_projection parse_doc
    detach_projection-IsDetached source contents doc parsed t unique recorded h =
        let id = p.provider_id in
        let (before, first, rest) =
          passed_on (λ d. check_owned toml id p.managed_values d >> tidied d)
            (ok_or (toml.parse source) (error codex_config_invalid)) contents h in
        let same : doc ≡ before = ground arith in
        let (_, owned, later) =
          passed_on (λ u. tidied before) (check_owned toml id p.managed_values before) contents
            rest in
        let (last, restored, done) =
          passed_on (λ r. ok (toml.print (tidy r))) (restore_items toml id p.previous_values before)
            contents later in
        record {
          before = before;
          parsed = rw (← same) parsed;
          owned = check_owned-All toml id p.managed_values before owned;
          after = tidy last;
          printed = ground arith;
          restored = swept-All p.previous_values last (
              restore_items-All toml laws id p.previous_values before last (rw (← same) t) unique
                recorded restored);
        }
