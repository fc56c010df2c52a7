-- ===== src/Attach/Execute/Recorded.antt =====
-- The preparation of an attachment changes no configuration and no binding, and its first step after that
-- writes the operation's record (services/provider_attach_transaction.rs).
use lam.Prelude.{
  Bool-cases, ℕ, String, Bool, true, false, Option, ◌≡◌, refl, inl, inr, arith, if◌then◌else◌,
  string_eq,
}
use lam.Prelude.Keyed.{get}
use lam.Errors.{AppError, Result, ok, err, error, gateway_binding_plan_mismatch}
use lam.Exec.{Exec, lift, reading, ◌>>◌}
use lam.Binding.{profile_of}
use lam.Planner.Plans.{ProfileAttachPlan}
use lam.Planner.Tickets.{validate}
use lam.Attach.Journal.{AttachJournalRecord}
use lam.Attach.Config.{read_file}
use lam.Attach.Coordinator.{
  AttachTransactionCoordinator, World, handled, on_journal, on_gateway, ignored, revoke_reference,
  create_journal_locked,
}
use lam.Attach.Coordinator.Logged.{
  HasRecord, Untouched, Quiet, bind-Quiet, revoke-Quiet, create-HasRecord,
}
use lam.Attach.Prepare.{
  Prepared, same_text, is_gateway, validate_attach_state, planned_config, prepare_gateway,
  prepare_attach,
}
use lam.Attach.Execute.{or_revoke}

module _ {P B J G : Type 0} (c : AttachTransactionCoordinator P B J G) (id : String) where
  prepare_gateway-Quiet :
      (plan : ProfileAttachPlan) (other : String) → Quiet c id (prepare_gateway c plan other)
  unfolding prepare_gateway
  prepare_gateway-Quiet plan other = elim (Bool-cases (is_gateway plan.route.route_kind)) [
    | inl e ↦ rw e (
        bind-Quiet c id (on_gateway (c.gateway_service.prepare other plan)) _ (λ w. (refl, refl))
          λ reference. agreed reference (same_text reference plan.gateway_binding_id))
    | inr e ↦ rw e (λ w. (refl, refl))
  ]
    where
      agreed :
          (reference : Option String) (same : Bool)
          → Quiet c id (
              if same
              then lift (ok reference)
              else (ignored (revoke_reference c.gateway_service reference)
                  >> lift (err (error gateway_binding_plan_mismatch))))
      agreed reference true = λ w. (refl, refl)
      agreed reference false =
          bind-Quiet c id (ignored (revoke_reference c.gateway_service reference))
            (λ u. lift {A = Option String} (err (error gateway_binding_plan_mismatch)))
            (revoke-Quiet c id reference) (λ u w. (refl, refl))

  pub prepare_attach-Quiet :
      (ticket : String) (plan : ProfileAttachPlan) (other : String) (now : ℕ)
      → Quiet c id (prepare_attach c ticket plan other now)
  unfolding prepare_attach
  prepare_attach-Quiet ticket plan other now =
      bind-Quiet c id
        (reading (λ w. validate ticket plan.fingerprint plan.fingerprint now w.registry)) _
        (λ w. (refl, refl))
        λ f.
          bind-Quiet c id (reading (validate_attach_state c plan)) _ (λ w. (refl, refl))
            λ u.
              bind-Quiet c id (reading (λ w. c.binding_store.load w.bindings)) _ (λ w. (refl, refl))
                λ bindings.
                  bind-Quiet c id (reading (λ w. read_file c.calls plan.config_path w.files)) _
                    (λ w. (refl, refl))
                    λ source.
                      bind-Quiet c id
                        (lift (
                          planned_config c plan
                            (get profile_of plan.profile_id bindings.value.bindings) source))
                        _ (λ w. (refl, refl))
                        λ applied.
                          bind-Quiet c id (prepare_gateway c plan other) _
                            (prepare_gateway-Quiet plan other) λ reference w. (refl, refl)

  -- the record is written, or nothing is
  module _ (p : Prepared) (r : AttachJournalRecord) (same : r.operation_id ≡ id) where
    abbrev recording : Exec (World P B J G) ℕ
    recording = or_revoke c p (on_journal (create_journal_locked c r))

    pub recording-Quiet : Quiet c id recording
    unfolding or_revoke
    recording-Quiet w = go (create_journal_locked c r w.journal).0
      where
        w1 : World P B J G
        w1 = record w { journal = (create_journal_locked c r w.journal).1 }

        go :
            (x : Result ℕ)
            → Untouched c id w
                (handled x
                  (λ e.
                    ignored (revoke_reference c.gateway_service p.gateway_reference)
                    >> lift (err e))
                  w1).1
        go (ok n) = (refl, refl)
        go (err _) = revoke-Quiet c id p.gateway_reference w1

    pub recording-HasRecord :
        (w : World P B J G) (n : ℕ)
        → (recording w).0 ≡ ok n
        → HasRecord c id (recording w).1.journal
    unfolding or_revoke
    recording-HasRecord w n h = go (create_journal_locked c r w.journal).0 refl h
      where
        w1 : World P B J G
        w1 = record w { journal = (create_journal_locked c r w.journal).1 }

        given_up : AppError → Exec (World P B J G) ℕ
        given_up e =
            ignored (revoke_reference c.gateway_service p.gateway_reference) >> lift (err e)

        go :
            (x : Result ℕ)
            → (create_journal_locked c r w.journal).0 ≡ x
            → (handled x given_up w1).0 ≡ ok n
            → HasRecord c id (handled x given_up w1).1.journal
        go (ok m) e k = create-HasRecord c id r w.journal m same e
        go (err _) e k = absurd (ground arith)
