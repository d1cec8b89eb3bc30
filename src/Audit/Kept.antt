-- ===== src/Audit/Kept.antt =====
-- Reachable queues of the audit service: no audit is lost, and none is sent without its evidence.
use Prim.Native.String.{String}
use text.Mathlib.Text.{◌==◌ as str_eq}
use text.Mathlib.TextEquality.{eq_iff}
use omni_aegis.Prelude.{
  ◌+◌, ◌≡◌, refl, Bool, true, false, ◌⊎◌, inl, inr, List, [], ◌∷◌, some, arith, All, Bool-cases,
  Option-cases,
}
use omni_aegis.Prelude.Dict.{Dict, lookup, insert, erase, lookup-insert, lookup-erase}
use omni_aegis.Redis.{is_some}
use omni_aegis.Audit.{
  Floats, PendingStage, AuditError, ipfs, tx, AuditServiceConfig, PendingAudit, State, Answers,
  persist_pending_queue, upsert_item, remove_item, disk_failed,
}
use omni_aegis.Audit.Worker.{
  fail_item, end_try, change_item, retry_delay, work_on, work_on_ipfs, work_on_tx, defer_item,
  no_cid, upload_evidence_to_ipfs, uploaded_item, submit_audit_transaction, should_defer,
}

module _ {fl : Floats} {D E : Type 0} (c : AuditServiceConfig fl D E) where
  -- An item for the chain has its evidence.
  abbrev pub HasCid : PendingAudit fl D E → Type 0
  HasCid item = item.stage ≡ tx → no_cid item.evidence_cid ≡ false

  -- A condition on ids and decisions, and an audit that has been written or not.
  module _ (Good : String → D → Type 0) (id : String) (begun : Bool) where
    abbrev pub Same : PendingAudit fl D E → Type 0
    Same item = Good item.queue_id item.decision × HasCid item

    -- The queue's keys are the items' ids.
    abbrev pub Entry : String × PendingAudit fl D E → Type 0
    Entry entry = (entry.0 ≡ entry.1.queue_id) × Same entry.1

    Entry-insert :
        (item : PendingAudit fl D E) (d : Dict (PendingAudit fl D E))
        → Same item
        → All Entry d
        → All Entry (insert item.queue_id item d)
    Entry-insert item [] h all = ((refl, h), tt)
    Entry-insert item ((k, v) ∷ d) h all = elim (Bool-cases (str_eq k item.queue_id)) [
      | inl same ↦ rw (same) ((refl, h), all.1)
      | inr apart ↦ rw (apart) (all.0, Entry-insert item d h all.1)
    ]

    Entry-erase :
        (k : String) (d : Dict (PendingAudit fl D E)) → All Entry d → All Entry (erase k d)
    Entry-erase k [] all = tt
    Entry-erase k ((j, v) ∷ d) all = elim (Bool-cases (str_eq j k)) [
      | inl same ↦ rw (same) (Entry-erase k d all.1)
      | inr apart ↦ rw (apart) (all.0, Entry-erase k d all.1)
    ]

    -- The audit is in the queue, or the chain has accepted its transaction.
    abbrev pub Sent : List (PendingAudit fl D E) → Type 0
    Sent [] = ⊥
    Sent (item ∷ items) = ((item.queue_id ≡ id) × Good item.queue_id item.decision) ⊎ Sent items

    abbrev pub Held : Dict (PendingAudit fl D E) → List (PendingAudit fl D E) → Type 0
    Held d sent = begun ≡ true → (is_some (lookup id d) ≡ true) ⊎ Sent sent

    Held-insert :
        (item : PendingAudit fl D E) (d : Dict (PendingAudit fl D E))
        (sent : List (PendingAudit fl D E))
        → Held d sent
        → Held (insert item.queue_id item d) sent
    Held-insert item d sent h b = elim (h b) [
      | inl there ↦ inl (rw (lookup-insert item.queue_id id item d) (ground (arith, there)))
      | inr done ↦ inr done
    ]

    Held-erase :
        (item : PendingAudit fl D E) (d : Dict (PendingAudit fl D E))
        (sent : List (PendingAudit fl D E))
        → Good item.queue_id item.decision
        → Held d sent
        → Held (erase item.queue_id d) (item ∷ sent)
    Held-erase item d sent good h b = elim (h b) [
      | inr done ↦ inr (inr done)
      | inl there ↦ elim (Bool-cases (str_eq item.queue_id id)) [
        | inl same ↦ inr (inl ((eq_iff item.queue_id id).0 same, good))
        | inr apart ↦ inl (rw (lookup-erase item.queue_id id d, apart) there)
      ]
    ]

    abbrev pub Kept : State fl D E → Type 0
    Kept s = All Entry s.pending × Held s.pending s.sent

    persist-Kept :
        (written : Bool) (s : State fl D E) → Kept s → Kept (persist_pending_queue written s)
    unfolding persist_pending_queue
    persist-Kept written s h = elim (Bool-cases written) [
      | inl done ↦ rw (persist_pending_queue, done) h
      | inr failed ↦ rw (persist_pending_queue, failed) h
    ]

    pub upsert_item-Kept :
        (item : PendingAudit fl D E) (written : Bool) (s : State fl D E)
        → Same item
        → Kept s
        → Kept (upsert_item item written s)
    unfolding upsert_item
    upsert_item-Kept item written s same (all, held) =
        persist-Kept written _
          (Entry-insert item s.pending same all, Held-insert item s.pending s.sent held)

    change_item-Kept :
        (item : PendingAudit fl D E) (s : State fl D E)
        → Same item
        → Kept s
        → Kept (change_item item s)
    change_item-Kept item s same (all, held) =
        elim (Bool-cases (is_some (lookup item.queue_id s.pending))) [
          | inl there ↦
              rw (there)
                (Entry-insert item s.pending same all, Held-insert item s.pending s.sent held)
          | inr gone ↦ rw (gone) (all, held)
        ]

    fail_item-Kept :
        (a : Answers fl D E) (error : AuditError) (item : PendingAudit fl D E) (s : State fl D E)
        → Same item
        → Kept s
        → Kept (fail_item c a error item s)
    unfolding fail_item
    fail_item-Kept a error item s same h = elim (Option-cases (retry_delay c (item.attempts + 1))) [
      | inl overflow ↦ rw (fail_item, overflow) (change_item-Kept _ s same h)
      | inr (delay, found) ↦ rw (fail_item, found) (upsert_item-Kept _ a.write_again s same h)
    ]

    end_try-Kept :
        (a : Answers fl D E) (item : PendingAudit fl D E) (s : State fl D E)
        → Same item
        → Kept s
        → Kept (end_try c a item s)
    unfolding end_try
    end_try-Kept a item s same h = elim (Bool-cases a.write) [
      | inl done ↦ rw (end_try, done) h
      | inr failed ↦ rw (end_try, failed) (fail_item-Kept a disk_failed item s same h)
    ]

    upload-cid :
        (a : Answers fl D E) (cid : String)
        → upload_evidence_to_ipfs a ≡ some cid
        → no_cid (some cid) ≡ false
    upload-cid a cid e = elim (Bool-cases (no_cid a.upload)) [
      | inl empty ↦ absurd (cc (rw (empty) at e))
      | inr there ↦ let e' : a.upload ≡ some cid = rw (there) at e in cc (there, e')
    ]

    work_on_ipfs-Kept :
        (a : Answers fl D E) (item : PendingAudit fl D E) (s : State fl D E)
        → Same item
        → Kept s
        → Kept (work_on_ipfs c a item s)
    unfolding work_on_ipfs
    work_on_ipfs-Kept a item s same h = elim (Option-cases (upload_evidence_to_ipfs a)) [
      | inl failed ↦ rw (work_on_ipfs, failed) (fail_item-Kept a _ item s same h)
      | inr (cid, e) ↦
          let item' : PendingAudit fl D E = uploaded_item a cid item in
          let same' : Same item' = (same.0, λ at_tx. upload-cid a cid e) in
          rw (work_on_ipfs, e)
            (end_try-Kept a item' _ same' (upsert_item-Kept item' a.write s same' h))
    ]

    defer_item-Kept :
        (a : Answers fl D E) (item : PendingAudit fl D E) (s : State fl D E)
        → Same item
        → Kept s
        → Kept (defer_item c a item s)
    unfolding defer_item
    defer_item-Kept a item s same h = end_try-Kept a _ _ same (upsert_item-Kept _ a.write s same h)

    work_on_tx-Kept :
        (a : Answers fl D E) (item : PendingAudit fl D E) (s : State fl D E)
        → Same item
        → Kept s
        → Kept (work_on_tx c a item s)
    unfolding work_on_tx remove_item
    work_on_tx-Kept a item s same h = elim (Bool-cases (should_defer c a.standard_gwei)) [
      | inl high ↦ rw (work_on_tx, high) (defer_item-Kept a item s same h)
      | inr low ↦ elim (Option-cases (submit_audit_transaction a item)) [
        | inr (error, failed) ↦ rw (work_on_tx, low, failed) (fail_item-Kept a error item s same h)
        | inl accepted ↦
            let item' : PendingAudit fl D E = record item { tx_hash = a.submit } in
            let s' : State fl D E = record s {
              pending = erase item.queue_id s.pending;
              sent = item' ∷ s.sent;
            } in
            let h' : Kept s' = (
              Entry-erase item.queue_id s.pending h.0,
              Held-erase item' s.pending s.sent same.0 h.1,
            ) in
            rw (work_on_tx, low, accepted)
              (end_try-Kept a item' (persist_pending_queue a.write s') same
                (persist-Kept a.write s' h'))
      ]
    ]

    pub work_on-Kept :
        (a : Answers fl D E) (item : PendingAudit fl D E) (s : State fl D E)
        → Same item
        → Kept s
        → Kept (work_on c a item s)
    unfolding work_on
    work_on-Kept a item s same h = by_stage item.stage refl
      where
        by_stage : (stage : PendingStage) → item.stage ≡ stage → Kept (work_on c a item s)
        by_stage ipfs e = rw (work_on, e) (work_on_ipfs-Kept a item s same h)
        by_stage tx e = rw (work_on, e) (work_on_tx-Kept a item s same h)
