-- ===== src/Attach/Coordinator/Logged.antt =====
-- The journal is written before anything else (services/provider_attach_transaction.rs): what steps of
-- an operation do to its record, and chains of them.
use lam.Prelude.{
  ℕ, String, true, false, ◌&&◌, Option, none, some, [], ◌∷◌, ◌++◌, ◌≡◌, refl, ◌∙◌, ap, arith, ◌⊎◌,
  inl, inr, any-append, any-sort_by, eq_refl, Bool-cases, ◌==◌, string_eq, nat_eq,
}
use lam.Prelude.Keyed.{has, get, update, has-replace}
use lam.Errors.{AppError, Result, ok, err}
use lam.Exec.{Exec, continue, ◌>>=◌}
use lam.Store.{StoreSnapshot}
use lam.Attach.Journal.{
  AttachJournalState, AttachJournalRecord, AttachJournalCollection, operation_of, moved_to,
  with_records, sort_records, record_not_after, valid_transition,
}
use lam.Attach.Coordinator.{
  AttachTransactionCoordinator, World, create_journal_locked, transition_journal_locked, on_error,
  handled, revoke_reference,
}

module _ {P B J G : Type 0} (c : AttachTransactionCoordinator P B J G) (id : String) where
  -- The journal has a record of the operation.
  abbrev pub HasRecord : J → Type 0
  HasRecord j =
      (snap : StoreSnapshot AttachJournalCollection) × (c.journal_store.load j ≡ ok snap)
      × (has operation_of id snap.value.records ≡ true)

  -- The configurations and the bindings are as they were.
  abbrev pub Untouched : World P B J G → World P B J G → Type 0
  Untouched w w' = (w'.files ≡ w.files) × (w'.bindings ≡ w.bindings)

  swap-HasRecord :
      (e : ℕ) (v : AttachJournalCollection) (j : J)
      → has operation_of id v.records ≡ true
      → HasRecord j
      → HasRecord (c.journal_store.swap e v j).1
  swap-HasRecord e v j new (snap, read, there) = elim (c.journal_store.swap_atomic e v j) [
    | inl old ↦ (snap, old ∙ read, there)
    | inr (snap', read', same) ↦ (snap', read', ap (λ x. has operation_of id x.records) same ∙ new)
  ]

  pub transition-HasRecord :
      (e : ℕ) (other : String) (state : AttachJournalState) (now : ℕ) (code : Option String) (j : J)
      → HasRecord j
      → HasRecord (transition_journal_locked c e other state now code j).1
  unfolding transition_journal_locked
  transition-HasRecord e other state now code j (snap, read, there) =
      found (get operation_of other snap.value.records) refl
    where
      new : AttachJournalCollection
      new = with_records (update operation_of other (moved_to state now code) snap.value.records)

      stays :
          (transition_journal_locked c e other state now code j).1 ≡ j
          → HasRecord (transition_journal_locked c e other state now code j).1
      stays same = (snap, ap c.journal_store.load same ∙ read, there)

      swaps :
          (x : Result (StoreSnapshot AttachJournalCollection))
          → (c.journal_store.swap e new j).0 ≡ x
          → (r : AttachJournalRecord) → get operation_of other snap.value.records ≡ some r
          → (snap.revision == e && valid_transition r.state state) ≡ true
          → (transition_journal_locked c e other state now code j).1
            ≡ (c.journal_store.swap e new j).1
      swaps (ok _) x r g t = ground arith
      swaps (err _) x r g t = ground arith

      found :
          (g : Option AttachJournalRecord)
          → get operation_of other snap.value.records ≡ g
          → HasRecord (transition_journal_locked c e other state now code j).1
      found none g = stays (go (Bool-cases (snap.revision == e)))
        where
          go :
              ((snap.revision == e) ≡ true) ⊎ ((snap.revision == e) ≡ false)
              → (transition_journal_locked c e other state now code j).1 ≡ j
          go (inl t) = ground arith
          go (inr t) = ground arith
      found (some r) g = elim (Bool-cases (snap.revision == e && valid_transition r.state state)) [
        | inl t ↦ rw (swaps (c.journal_store.swap e new j).0 refl r g t) (
            swap-HasRecord e new j
              (has-replace operation_of other id (moved_to state now code) snap.value.records
                  (λ y k. k)
                ∙ there)
              (snap, read, there))
        | inr t ↦ stays (ground (arith, t))
      ]

  -- A record that is created is there.
  pub create-HasRecord :
      (r : AttachJournalRecord) (j : J) (n : ℕ)
      → r.operation_id ≡ id
      → (create_journal_locked c r j).0 ≡ ok n
      → HasRecord (create_journal_locked c r j).1
  unfolding create_journal_locked
  create-HasRecord r j n same h = loaded (c.journal_store.load j) refl
    where
      new : StoreSnapshot AttachJournalCollection → AttachJournalCollection
      new cur = with_records (sort_records (cur.value.records ++ r ∷ []))

      written :
          (cur snap : StoreSnapshot AttachJournalCollection)
          → c.journal_store.load j ≡ ok cur
          → (c.journal_store.swap cur.revision (new cur) j).0 ≡ ok snap
          → HasRecord (create_journal_locked c r j).1
      written cur snap read s =
          let after : (create_journal_locked c r j).1
              ≡ (c.journal_store.swap cur.revision (new cur) j).1 =
            ground arith in
          let value = (c.journal_store.swap_value cur.revision (new cur) j snap s).0 in
          rw after (
            snap,
            c.journal_store.load-swap cur.revision (new cur) j snap s,
            ap (λ v. has operation_of id v.records) value
                ∙ any-sort_by record_not_after (λ x. operation_of x == id)
                    (cur.value.records ++ r ∷ [])
                ∙ any-append (λ x. operation_of x == id) cur.value.records (r ∷ [])
                ∙ ground (arith, same, eq_refl id),
          )

      swapped :
          (cur : StoreSnapshot AttachJournalCollection)
          → c.journal_store.load j ≡ ok cur
          → (x : Result (StoreSnapshot AttachJournalCollection))
          → (c.journal_store.swap cur.revision (new cur) j).0 ≡ x
          → HasRecord (create_journal_locked c r j).1
      swapped cur read (ok snap) s = written cur snap read s
      swapped cur read (err _) s = absurd (ground arith)

      loaded :
          (x : Result (StoreSnapshot AttachJournalCollection))
          → c.journal_store.load j ≡ x
          → HasRecord (create_journal_locked c r j).1
      loaded (ok cur) read = swapped cur read (c.journal_store.swap cur.revision (new cur) j).0 refl
      loaded (err _) read = absurd (ground arith)

  module _ {A : Type 0} where
    -- the operation's record stays
    abbrev pub Keeping : Exec (World P B J G) A → Type 0
    Keeping m = (w : World P B J G) → HasRecord w.journal → HasRecord (m w).1.journal

    -- nothing but the journal, the gateway and the registry changes
    abbrev pub Quiet : Exec (World P B J G) A → Type 0
    Quiet m = (w : World P B J G) → Untouched w (m w).1

    -- Whatever is changed, the journal has the record.
    abbrev pub IsLogged : Exec (World P B J G) A → Type 0
    IsLogged m = (w : World P B J G) → Untouched w (m w).1 ⊎ HasRecord (m w).1.journal

    pub apart-Keeping :
        (m : Exec (World P B J G) A)
        → ((w : World P B J G) → (m w).1.journal ≡ w.journal)
        → Keeping m
    apart-Keeping m same w k = rw (same w) k

    pub Quiet-IsLogged : (m : Exec (World P B J G) A) → Quiet m → IsLogged m
    Quiet-IsLogged m q w = inl (q w)

    pub on_error-Keeping :
        (m : Exec (World P B J G) A) (handler : AppError → Exec (World P B J G) A)
        → Keeping m
        → ((e : AppError) → Keeping (handler e))
        → Keeping (on_error m handler)
    on_error-Keeping m handler k l w i = go (m w).0
      where
        go : (r : Result A) → HasRecord (handled r handler (m w).1).1.journal
        go (ok a) = k w i
        go (err e) = l e (m w).1 (k w i)

  module _ {A D : Type 0} (m : Exec (World P B J G) A) (f : A → Exec (World P B J G) D) where
    pub bind-Keeping : Keeping m → ((a : A) → Keeping (f a)) → Keeping (m >>= f)
    bind-Keeping k l w i = go (m w).0
      where
        go : (r : Result A) → HasRecord (continue r f (m w).1).1.journal
        go (ok a) = l a (m w).1 (k w i)
        go (err e) = k w i

    pub bind-Quiet : Quiet m → ((a : A) → Quiet (f a)) → Quiet (m >>= f)
    bind-Quiet k l w = go (m w).0
      where
        go : (r : Result A) → Untouched w (continue r f (m w).1).1
        go (ok a) = let (files, bindings) = l a (m w).1 in (files ∙ (k w).0, bindings ∙ (k w).1)
        go (err e) = k w

    -- a step that changes nothing, and what is logged after it
    pub bind-IsLogged : Quiet m → ((a : A) → IsLogged (f a)) → IsLogged (m >>= f)
    bind-IsLogged k l w = go (m w).0
      where
        go :
            (r : Result A)
            → Untouched w (continue r f (m w).1).1 ⊎ HasRecord (continue r f (m w).1).1.journal
        go (ok a) = elim (l a (m w).1) [
          | inl (files, bindings) ↦ inl (files ∙ (k w).0, bindings ∙ (k w).1)
          | inr there ↦ inr there
        ]
        go (err e) = inl (k w)

    -- the step that writes the record, and what keeps it
    pub record-IsLogged :
        Quiet m
        → ((w : World P B J G) (a : A) → (m w).0 ≡ ok a → HasRecord (m w).1.journal)
        → ((a : A) → Keeping (f a))
        → IsLogged (m >>= f)
    record-IsLogged k there l w = go (m w).0 refl
      where
        go :
            (r : Result A)
            → (m w).0 ≡ r
            → Untouched w (continue r f (m w).1).1 ⊎ HasRecord (continue r f (m w).1).1.journal
        go (ok a) e = inr (l a (m w).1 (there w a e))
        go (err _) e = inl (k w)

  pub revoke-Keeping :
      (reference : Option String) → Keeping (revoke_reference c.gateway_service reference)
  revoke-Keeping none w k = k
  revoke-Keeping (some _) w k = k

  pub revoke-Quiet :
      (reference : Option String) → Quiet (revoke_reference c.gateway_service reference)
  revoke-Quiet none w = (refl, refl)
  revoke-Quiet (some _) w = (refl, refl)
