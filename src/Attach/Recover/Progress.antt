-- ===== src/Attach/Recover/Progress.antt =====
-- `recover_pending` makes progress (services/provider_attach_transaction.rs): the records that it
-- takes up are no longer active, and all others are as they were.
use lam.Prelude.{
  ℕ, zero, suc, ◌-◌, String, string_eq, List, [], ◌∷◌, ◌≡◌, refl, arith, count, length, take, drop,
  retain, map, ap, sym, ◌∙◌, min,
}
use lam.Errors.{Result, ok, err}
use lam.Exec.{lift, ◌>>=◌}
use lam.Exec.Triple.{went_on}
use lam.Store.{StoreSnapshot}
use lam.Attach.Journal.{
  operation_of, AttachJournalRecord, AttachJournalCollection, is_open, validate_collection,
}
use lam.Attach.Coordinator.{AttachTransactionCoordinator, World, RecoveryReport}
use lam.Attach.Recover.{recover_record, recover_records, recover_pending}
use lam.Attach.Recover.Open.{
  open_ids, strike_all, strike_all-take, open_ids-take, length-open_ids, length-drop, length-take,
  length-map,
}
use lam.Attach.Recover.Steps.{Closes}
use lam.Attach.Recover.Closing.{recover_record-Lowers}

module _ {P B J G : Type 0} (c : AttachTransactionCoordinator P B J G) where
  -- each record that is recovered is closed
  records-Lowers :
      (rs : List AttachJournalRecord) (now : ℕ) (w : World P B J G) (n : ℕ)
      → (recover_records c rs now w).0 ≡ ok n
      → (n ≡ length rs)
        × Closes c (map operation_of rs) w.journal (recover_records c rs now w).1.journal
  unfolding recover_records
  records-Lowers [] now w n h = (ground arith, λ before read. (before, read, refl))
  records-Lowers (r ∷ rs) now w n h =
      let (x, recovered, later, same) =
        went_on (recover_record c r now) (λ x. recover_records c rs now >>= λ m. lift (ok (suc m)))
          w n h in
      let w' : World P B J G = (recover_record c r now w).1 in
      let (m, others, last, same') =
        went_on (recover_records c rs now) (λ m. lift (ok (suc m))) w' n later in
      let (counted, closed) = records-Lowers rs now w' m others in
      (
        ground arith,
        rw (same, same')
            (λ before read.
              let (middle, read', first) =
                recover_record-Lowers c r now w x recovered before read in
              let (after, read'', second) = closed middle read' in
              (after, read'', second ∙ ap (strike_all (map operation_of rs)) first)),
      )

  -- What a recovery that succeeds leaves in the journal, and what it reports.
  pub record IsRecovered (bound : ℕ) (before : StoreSnapshot AttachJournalCollection) (j : J)
      (report : RecoveryReport) : Type 0 where
    pub after : StoreSnapshot AttachJournalCollection
    pub read : c.journal_store.load j ≡ ok after
    pub active : open_ids after.value.records ≡ drop bound (open_ids before.value.records)
    pub recovered : report.recovered ≡ min bound (length (open_ids before.value.records))
    pub remaining : report.remaining ≡ length (open_ids before.value.records) - bound

  -- A recovery that succeeds takes up the first active records of the journal, in the order in which it
  -- lists them and at most the bound. Exactly these are no longer active: the active ones after it are
  -- those behind them, in the same order. It reports how many it took up and how many are left.
  pub recover_pending-Progress :
      (acquired : Result (Unit {0})) (now bound : ℕ) (w : World P B J G) (report : RecoveryReport)
      (before : StoreSnapshot AttachJournalCollection)
      → c.journal_store.load w.journal ≡ ok before
      → (recover_pending c acquired now bound w).0 ≡ ok report
      → IsRecovered bound before (recover_pending c acquired now bound w).1.journal report
  unfolding recover_pending
  recover_pending-Progress acquired now zero w report before read h = absurd (ground arith)
  recover_pending-Progress acquired now (suc bound) w report before read h =
      go acquired refl (validate_collection c.to_text before.value) refl
        (recover_records c (taken before) now w).0 refl
    where
      taken : StoreSnapshot AttachJournalCollection → List AttachJournalRecord
      taken snapshot = take (suc bound) (retain is_open snapshot.value.records)

      ids : List String
      ids = open_ids before.value.records

      w' : World P B J G
      w' = (recover_records c (taken before) now w).1

      go :
          (a : Result (Unit {0}))
          → acquired ≡ a
          → (v : Result (Unit {0})) → validate_collection c.to_text before.value ≡ v
          → (x : Result ℕ) → (recover_records c (taken before) now w).0 ≡ x
          → IsRecovered
              (suc bound)
              before
              (recover_pending c acquired now (suc bound) w).1.journal
              report
      go (ok _) e (ok _) f (ok n) g =
          let (counted, closed) = records-Lowers (taken before) now w n g in
          let (after, read', struck) = closed before read in
          let left : open_ids after.value.records ≡ drop (suc bound) ids =
            struck
            ∙ ap (λ (t : List String). strike_all t ids)
                (open_ids-take (suc bound) before.value.records)
            ∙ strike_all-take (suc bound) ids in
          let same : (recover_pending c acquired now (suc bound) w).1.journal ≡ w'.journal =
            ground arith in
          let size : count is_open after.value.records ≡ length ids - suc bound =
            sym (length-open_ids after.value.records)
            ∙ ap length left
            ∙ length-drop (suc bound) ids in
          let took : length (taken before) ≡ min (suc bound) (length ids) =
            sym (length-map (taken before))
            ∙ ap length (open_ids-take (suc bound) before.value.records)
            ∙ length-take (suc bound) ids in
          record {
            after = after;
            read = ap c.journal_store.load same ∙ read';
            active = left;
            recovered = ground arith;
            remaining = ground arith;
          }
      go (ok _) e (ok _) f (err _) g = absurd (ground arith)
      go (ok _) e (err _) f x g = absurd (ground arith)
      go (err _) e v f x g = absurd (ground arith)
