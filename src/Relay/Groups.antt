-- ===== src/Relay/Groups.antt =====
-- The calls and results of a history by their call id (services/provider_relay_compatibility.rs).
use lam.Prelude.{
  ◌+◌, String, ◌≡◌, refl, ap, ◌∙◌, true, false, ◌==◌, nat_eq, string_eq, ◌||◌, ltb, eq_iff,
  if◌then◌else◌, Option, none, some, List, [], ◌∷◌, ◌++◌, length, length-append, arith,
  is_some-find, Bool-cases, inl, inr,
}
use lam.Prelude.Keyed.{
  get, has, update, IsUnique, has-insert_sorted, get-insert_sorted, IsUnique-insert_sorted,
  get-replace, has-replace, IsUnique-replace, get_of_has,
}
use lam.Relay.{RelayHistoryItem, Groups, group_key, push_entry, items_of, members}

module _ (k : String) (item : RelayHistoryItem) (g : Groups) where
  abbrev grown : String × List RelayHistoryItem → String × List RelayHistoryItem
  grown e = (e.0, e.1 ++ item ∷ [])

  pub has-push_entry :
      (j : String) → has group_key j (push_entry k item g) ≡ (k == j || has group_key j g)
  unfolding push_entry
  has-push_entry j = ground (
    arith,
    has-insert_sorted group_key j (k, item ∷ []) g,
    has-replace group_key k j grown g (λ y e. e),
    eq_iff k j,
  )

  pub IsUnique-push_entry : IsUnique group_key g → IsUnique group_key (push_entry k item g)
  unfolding push_entry
  IsUnique-push_entry u = elim (Bool-cases (has group_key k g)) [
    | inl h ↦ rw h (IsUnique-replace group_key k grown g (λ y e. e) u)
    | inr h ↦ rw h (IsUnique-insert_sorted group_key (k, item ∷ []) g h u)
  ]

  -- The group of the key has one item more, and the others have theirs.
  pub length-push_entry :
      (j : String)
      → length (items_of j (push_entry k item g))
        ≡ length (items_of j g) + (if k == j then 1 else 0)
  unfolding push_entry items_of
  length-push_entry j = elim (Bool-cases (has group_key k g)) [
    | inl h ↦ rw h (replaced h)
    | inr h ↦
        rw h (
          ap (λ o. length (members o)) (get-insert_sorted group_key j (k, item ∷ []) g h) ∙ fresh h)
  ]
    where
      fresh :
          has group_key k g ≡ false
          → length (members (get group_key j ((k, item ∷ []) ∷ g)))
            ≡ length (items_of j g) + (if k == j then 1 else 0)
      fresh h = ground (arith, get_of_has group_key k g h, eq_iff k j)

      replaced :
          has group_key k g ≡ true
          → length (members (get group_key j (update group_key k grown g)))
            ≡ length (items_of j g) + (if k == j then 1 else 0)
      replaced h = go (get group_key k g) refl
        where
          go :
              (o : Option (String × List RelayHistoryItem))
              → get group_key k g ≡ o
              → length (members (get group_key j (update group_key k grown g)))
                ≡ length (items_of j g) + (if k == j then 1 else 0)
          go none e = ground (arith, e, h, is_some-find (λ x. group_key x == k) g)
          go (some x) e =
              ap (λ o. length (members o)) (get-replace group_key k j grown g x (λ y p. p) e)
              ∙ ground (arith, e, eq_iff k j, length-append x.1 (item ∷ []))

-- one group for each key, and none that is empty
pub record IsSound (g : Groups) : Type 0 where
  pub unique : IsUnique group_key g
  pub filled : (k : String) → has group_key k g ≡ ltb 0 (length (items_of k g))

pub IsSound-push_entry :
    (k : String) (item : RelayHistoryItem) (g : Groups) → IsSound g → IsSound (push_entry k item g)
IsSound-push_entry k item g s = record {
  unique = IsUnique-push_entry k item g s.unique;
  filled = λ j. ground (arith, has-push_entry k item g j, length-push_entry k item g j, s.filled j);
}
