-- ===== src/Attach/Editor/Items.antt =====
-- services/provider_config_editor.rs: what `restore_item` and the checks of ownership do to the items of a
-- document, by the documented behaviour of toml_edit.
use lam.Prelude.{
  String, true, false, ◌==◌, string_eq, Option, none, some, [], ◌∷◌, ◌≡◌, refl, ◌∙◌, ap, arith,
  if◌then◌else◌, eq_iff, eq_refl, All,
}
use lam.Prelude.Keyed.{has, IsUnique}
use lam.Errors.{
  ok, guard, error, ok_or, passed_on, codex_config_ownership_conflict, codex_config_invalid,
}
use lam.Binding.{BTreeMap, map_key}
use lam.Attach.Editor.{
  TomlEdit, place_of, item_string, item_of, texted, restore_item, restore_items, check_owned,
}

module _ {Doc Item : Type 0} (toml : TomlEdit Doc Item) where
  -- What the crate documents of these calls, on the keys of one provider and the ones at the top.
  pub record IsTomlEdit : Type 0 where
    pub get_set :
        (id j k : String) (item : Item) (doc : Doc)
        → toml.is_table id doc ≡ true
        → toml.get (place_of id k) (toml.set (place_of id j) item doc)
          ≡ (if j == k then some item else toml.get (place_of id k) doc)
    -- a key is removed from a table
    pub get_remove :
        (id j k : String) (doc : Doc)
        → toml.is_table id doc ≡ true
        → toml.get (place_of id k) (toml.remove (place_of id j) doc)
          ≡ (if j == k then none else toml.get (place_of id k) doc)
    pub table_set :
        (id j : String) (item : Item) (doc : Doc)
        → toml.is_table id doc ≡ true
        → toml.is_table id (toml.set (place_of id j) item doc) ≡ true
    pub table_remove :
        (id j : String) (doc : Doc)
        → toml.is_table id doc ≡ true
        → toml.is_table id (toml.remove (place_of id j) doc) ≡ true
    -- a table without entries holds no item
    pub get_remove_table :
        (id k : String) (doc : Doc)
        → toml.is_empty_table id doc ≡ true
        → toml.get (place_of id k) (toml.remove_table id doc) ≡ toml.get (place_of id k) doc
    pub get_remove_providers :
        (id k : String) (doc : Doc)
        → toml.is_empty_providers doc ≡ true
        → toml.get (place_of id k) (toml.remove_providers doc) ≡ toml.get (place_of id k) doc
    -- a value that was printed, and is read back as a value, is printed the same
    pub text_kept :
        (key : String) (old item : Item)
        → (key == "auth") ≡ false
        → item_of toml key (toml.text_of old) ≡ some item
        → toml.text_of item ≡ toml.text_of old

  -- The earlier value of a key is the printed text of an item, and the key is not `auth`, which
  -- `apply_projection` refuses to take over.
  abbrev pub IsRecorded : String × Option String → Type 0
  IsRecorded (key, none) = Unit {0}
  IsRecorded (key, some text) = ((key == "auth") ≡ false) × (old : Item) × (toml.text_of old ≡ text)

  item_string_of :
      (id k : String) (doc : Doc) (o : Option Item)
      → toml.get (place_of id k) doc ≡ o
      → item_string toml id doc k ≡ texted toml o
  unfolding item_string
  item_string_of id k doc o h = ap (texted toml) h

  pub same_string :
      (id k : String) (a b : Doc)
      → toml.get (place_of id k) a ≡ toml.get (place_of id k) b
      → item_string toml id a k ≡ item_string toml id b k
  unfolding item_string
  same_string id k a b h = ap (texted toml) h

  module _ (id : String) where
    -- Every value that the projection wrote is there.
    abbrev pub IsOwnedIn : Doc → String × String → Type 0
    IsOwnedIn doc entry = item_string toml id doc entry.0 ≡ some entry.1

    abbrev pub IsRestoredIn : Doc → String × Option String → Type 0
    IsRestoredIn doc entry = item_string toml id doc entry.0 ≡ entry.1

    owned_text :
        (o : Option String) (expected : String)
        → guard
            (elim o [ none ↦ false | some text ↦ text == expected ])
            (error codex_config_ownership_conflict)
          ≡ ok tt
        → o ≡ some expected
    owned_text none expected h = absurd (ground arith)
    owned_text (some text) expected h = ground (arith, eq_iff text expected)

    pub check_owned-All :
        (entries : BTreeMap String) (doc : Doc)
        → check_owned toml id entries doc ≡ ok tt
        → All (IsOwnedIn doc) entries
    unfolding check_owned
    check_owned-All [] doc h = tt
    check_owned-All ((key, expected) ∷ rest) doc h =
        let (_, here, later) =
          passed_on _
            (guard
              (elim (item_string toml id doc key) [ none ↦ false | some text ↦ text == expected ])
              (error codex_config_ownership_conflict))
            tt h in
        (owned_text (item_string toml id doc key) expected here, check_owned-All rest doc later)

  module _ (laws : IsTomlEdit) (id : String) where
    restore_item-apart :
        (doc next : Doc) (key : String) (previous : Option String) (k : String)
        → toml.is_table id doc ≡ true
        → restore_item toml id doc key previous ≡ ok next
        → (toml.is_table id next ≡ true)
          × ((key == k) ≡ false → toml.get (place_of id k) next ≡ toml.get (place_of id k) doc)
    unfolding restore_item
    restore_item-apart doc next key none k t h =
        let e : toml.remove (place_of id key) doc ≡ next = ground arith in
        rw (← e) (laws.table_remove id key doc t, λ ne. laws.get_remove id key k doc t ∙ rw ne refl)
    restore_item-apart doc next key (some text) k t h =
        let (item, read, written) =
          passed_on (λ item. ok (toml.set (place_of id key) item doc))
            (ok_or (item_of toml key text) (error codex_config_invalid)) next h in
        let e : toml.set (place_of id key) item doc ≡ next = ground arith in
        rw (← e)
          (laws.table_set id key item doc t, λ ne. laws.get_set id key k item doc t ∙ rw ne refl)

    found :
        (o : Option Item) (item : Item)
        → ok_or o (error codex_config_invalid) ≡ ok item
        → o ≡ some item
    found none item h = absurd (ground arith)
    found (some _) item h = ground arith

    restore_item_own :
        (doc next : Doc) (key : String) (previous : Option String)
        → toml.is_table id doc ≡ true
        → IsRecorded (key, previous)
        → restore_item toml id doc key previous ≡ ok next
        → item_string toml id next key ≡ previous
    unfolding restore_item
    restore_item_own doc next key none t recorded h =
        let e : toml.remove (place_of id key) doc ≡ next = ground arith in
        let gone : toml.get (place_of id key) next ≡ none =
          rw (← e) (laws.get_remove id key key doc t ∙ rw (eq_refl key) refl) in
        item_string_of id key next none gone
    restore_item_own doc next key (some text) t recorded h =
        let (item, read, written) =
          passed_on (λ item. ok (toml.set (place_of id key) item doc))
            (ok_or (item_of toml key text) (error codex_config_invalid)) next h in
        let e : toml.set (place_of id key) item doc ≡ next = ground arith in
        let there : toml.get (place_of id key) next ≡ some item =
          rw (← e) (laws.get_set id key key item doc t ∙ rw (eq_refl key) refl) in
        let parsed : item_of toml key text ≡ some item = found (item_of toml key text) item read in
        let (other, old, printed) = recorded in
        item_string_of id key next (some item) there
        ∙ ap some (laws.text_kept key old item other (rw printed parsed) ∙ printed)

    restore_items-apart :
        (entries : BTreeMap (Option String)) (doc last : Doc) (k : String)
        → toml.is_table id doc ≡ true
        → has map_key k entries ≡ false
        → restore_items toml id entries doc ≡ ok last
        → toml.get (place_of id k) last ≡ toml.get (place_of id k) doc
    unfolding restore_items
    restore_items-apart [] doc last k t free h = ground arith
    restore_items-apart ((key, previous) ∷ rest) doc last k t free h =
        let (next, first, later) =
          passed_on (restore_items toml id rest) (restore_item toml id doc key previous) last h in
        let (t', apart) = restore_item-apart doc next key previous k t first in
        restore_items-apart rest next last k t' (ground arith) later ∙ apart (ground arith)

    pub restore_items-All :
        (entries : BTreeMap (Option String)) (doc last : Doc)
        → toml.is_table id doc ≡ true
        → IsUnique map_key entries
        → All IsRecorded entries
        → restore_items toml id entries doc ≡ ok last
        → All (IsRestoredIn id last) entries
    unfolding restore_items
    restore_items-All [] doc last t unique recorded h = tt
    restore_items-All ((key, previous) ∷ rest) doc last t unique recorded h =
        let (next, first, later) =
          passed_on (restore_items toml id rest) (restore_item toml id doc key previous) last h in
        let (t', _) = restore_item-apart doc next key previous key t first in
        (
          same_string id key last next (restore_items-apart rest next last key t' unique.0 later)
              ∙ restore_item_own doc next key previous t recorded.0 first,
          restore_items-All rest next last t' unique.1 recorded.1 later,
        )
