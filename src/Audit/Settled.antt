-- ===== src/Audit/Settled.antt =====
-- How an iteration of the worker ends.
use omni_aegis.Prelude.{◌+◌, ◌≡◌, refl, inl, inr, Bool-cases, Option-cases}
use omni_aegis.Audit.{
  Floats, PendingStage, AuditError, ipfs, tx, AuditServiceConfig, PendingAudit, State, Answers,
  RetryWorker, idle, busy, dead, persist_pending_queue, upsert_item, remove_item, values,
  disk_failed,
}
use omni_aegis.Audit.Worker.{
  fail_item, end_try, retry_delay, work_on, work_on_ipfs, work_on_tx, defer_item,
  upload_evidence_to_ipfs, uploaded_item, submit_audit_transaction, should_defer,
}

module _ {fl : Floats} {D E : Type 0} (c : AuditServiceConfig fl D E) where
  -- The worker has let go of its item, and the file holds the queue unless the worker has died.
  abbrev pub SettledWith : State fl D E → RetryWorker fl D E → Type 0
  SettledWith s idle = s.file ≡ values s.pending
  SettledWith s (busy item) = ⊥
  SettledWith s dead = Unit

  abbrev pub Settled : State fl D E → Type 0
  Settled s = SettledWith s s.worker

  fail_item-Settled :
      (a : Answers fl D E) (error : AuditError) (item : PendingAudit fl D E) (s : State fl D E)
      → Settled (fail_item c a error item s)
  unfolding fail_item upsert_item persist_pending_queue
  fail_item-Settled a error item s = elim (Option-cases (retry_delay c (item.attempts + 1))) [
    | inl overflow ↦ rw (fail_item, overflow) tt
    | inr (delay, found) ↦ elim (Bool-cases a.write_again) [
      | inl done ↦ rw (fail_item, found, done) refl
      | inr failed ↦ rw (fail_item, found, failed) tt
    ]
  ]

  end_try-Settled :
      (a : Answers fl D E) (item : PendingAudit fl D E) (s : State fl D E)
      → Settled (end_try c a item (persist_pending_queue a.write s))
  unfolding end_try persist_pending_queue
  end_try-Settled a item s = elim (Bool-cases a.write) [
    | inl done ↦ rw (end_try, done) refl
    | inr failed ↦ rw (end_try, failed) (fail_item-Settled a disk_failed item s)
  ]

  work_on_ipfs-Settled :
      (a : Answers fl D E) (item : PendingAudit fl D E) (s : State fl D E)
      → Settled (work_on_ipfs c a item s)
  unfolding work_on_ipfs upsert_item
  work_on_ipfs-Settled a item s = elim (Option-cases (upload_evidence_to_ipfs a)) [
    | inl failed ↦ rw (work_on_ipfs, failed) (fail_item-Settled a _ item s)
    | inr (cid, e) ↦ rw (work_on_ipfs, e) (end_try-Settled a (uploaded_item a cid item) _)
  ]

  work_on_tx-Settled :
      (a : Answers fl D E) (item : PendingAudit fl D E) (s : State fl D E)
      → Settled (work_on_tx c a item s)
  unfolding work_on_tx defer_item upsert_item remove_item
  work_on_tx-Settled a item s = elim (Bool-cases (should_defer c a.standard_gwei)) [
    | inl high ↦ rw (work_on_tx, high) (end_try-Settled a _ _)
    | inr low ↦ elim (Option-cases (submit_audit_transaction a item)) [
      | inr (error, failed) ↦ rw (work_on_tx, low, failed) (fail_item-Settled a error item s)
      | inl accepted ↦ rw (work_on_tx, low, accepted) (end_try-Settled a _ _)
    ]
  ]

  -- However the world answers, an iteration of the worker ends: it no longer holds an item, and if it
  -- lives on then the file on disk holds the queue in memory.
  pub work_on-Settled :
      (a : Answers fl D E) (item : PendingAudit fl D E) (s : State fl D E)
      → Settled (work_on c a item s)
  unfolding work_on
  work_on-Settled a item s = by_stage item.stage refl
    where
      by_stage : (stage : PendingStage) → item.stage ≡ stage → Settled (work_on c a item s)
      by_stage ipfs e = rw (work_on, e) (work_on_ipfs-Settled a item s)
      by_stage tx e = rw (work_on, e) (work_on_tx-Settled a item s)
