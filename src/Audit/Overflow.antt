-- ===== src/Audit/Overflow.antt =====
-- The end of the retry worker: `2 ** (attempts - 1)` grows past the floats.
use omni_aegis.Prelude.{
  ℕ, ◌+◌, ◌-◌, ◌≤◌, ◌≡◌, refl, ap, ◌∙◌, true, false, inl, inr, List, [], ◌∷◌, none, arith,
  Bool-cases,
}
use omni_aegis.Prelude.Dict.{lookup}
use omni_aegis.Redis.{is_some}
use omni_aegis.Audit.{
  Floats, AuditError, ipfs, AuditServiceConfig, PendingAudit, State, Answers, dead,
  write_audit_record, upsert_item, persist_pending_queue,
}
use omni_aegis.Audit.Worker.{
  fail_item, change_item, retry_delay, capped, work_on, work_on_ipfs, upload_evidence_to_ipfs,
}
use omni_aegis.Audit.Reached.{
  Event, write_record, take_due, go_on, apply, run, take_if_idle, go_on_with,
}

module _ {fl : Floats} {D E : Type 0} (c : AuditServiceConfig fl D E) where
  retry_delay-overflow : (attempts : ℕ) → 1024 ≤ attempts - 1 → retry_delay c attempts ≡ none
  unfolding retry_delay
  retry_delay-overflow attempts h =
      ap (capped c) (fl.times_pow2-overflow c.retry_base_seconds (attempts - 1) h)

  fail_item-dead :
      (a : Answers fl D E) (error : AuditError) (item : PendingAudit fl D E) (s : State fl D E)
      → 1024 ≤ item.attempts
      → ((fail_item c a error item s).worker ≡ dead) × ((fail_item c a error item s).sent ≡ s.sent)
  unfolding fail_item
  fail_item-dead a error item s h =
      rw (fail_item, retry_delay-overflow (item.attempts + 1) (omega arith))
        (refl, same_sent (record item { attempts = item.attempts + 1 }))
    where
      same_sent : (item' : PendingAudit fl D E) → (change_item item' s).sent ≡ s.sent
      same_sent item' = elim (Bool-cases (is_some (lookup item'.queue_id s.pending))) [
        | inl there ↦ rw (there)
        | inr gone ↦ rw (gone)
      ]

  apply-dead :
      (event : Event fl D E) (s : State fl D E)
      → s.worker ≡ dead
      → ((apply c event s).worker ≡ dead) × ((apply c event s).sent ≡ s.sent)
  unfolding apply take_if_idle go_on_with write_audit_record upsert_item persist_pending_queue
  apply-dead (write_record queue_id decision evidence now true) s h = (h, refl)
  apply-dead (write_record queue_id decision evidence now false) s h = (h, refl)
  apply-dead (take_due now) s h =
      (ap (λ w. (take_if_idle c now s w).worker) h ∙ h, ap (λ w. (take_if_idle c now s w).sent) h)
  apply-dead (go_on a) s h =
      (ap (λ w. (go_on_with c a s w).worker) h ∙ h, ap (λ w. (go_on_with c a s w).sent) h)

  -- Nothing is sent by a service whose worker is dead.
  run-dead :
      (events : List (Event fl D E)) (s : State fl D E)
      → s.worker ≡ dead
      → (run c events s).sent ≡ s.sent
  unfolding run
  run-dead [] s h = refl
  run-dead (event ∷ events) s h =
      let (still, same) = apply-dead event s h in run-dead events (apply c event s) still ∙ same

  -- When the upload of an item fails after 1024 attempts that failed, the back-off raises
  -- OverflowError inside the handler, so the worker ends: whatever happens to the service then, no
  -- transaction is sent any more.
  pub work_on-dead :
      (a : Answers fl D E) (item : PendingAudit fl D E) (s : State fl D E)
      (events : List (Event fl D E))
      → item.stage ≡ ipfs
      → upload_evidence_to_ipfs a ≡ none
      → 1024 ≤ item.attempts
      → ((work_on c a item s).worker ≡ dead) × ((run c events (work_on c a item s)).sent ≡ s.sent)
  unfolding work_on work_on_ipfs
  work_on-dead a item s events at_ipfs failed h =
      let (ended, same) = now_dead in (ended, run-dead events (work_on c a item s) ended ∙ same)
    where
      now_dead : ((work_on c a item s).worker ≡ dead) × ((work_on c a item s).sent ≡ s.sent)
      now_dead = rw (work_on, at_ipfs, work_on_ipfs, failed) (fail_item-dead a _ item s h)
