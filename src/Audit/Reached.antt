-- ===== src/Audit/Reached.antt =====
-- The service over time: events in any order, and what holds in every queue that they reach.
use Prim.Native.String.{String}
use mathlib.Core.Path.{subst}
use omni_aegis.Prelude.{
  ◌≡◌, ◌≢◌, refl, sym, Bool, true, false, inl, inr, List, [], ◌∷◌, some, All, Bool-cases,
}
use omni_aegis.Prelude.Dict.{Dict, lookup, lookup-insert, str_eq_refl}
use omni_aegis.Redis.{is_some}
use omni_aegis.Audit.{
  Floats, tx, AuditServiceConfig, PendingAudit, State, Answers, RetryWorker, idle, busy, dead,
  persist_pending_queue, upsert_item, write_audit_record, take_item, values, new_audit, before,
  missing_evidence_cid,
}
use omni_aegis.Audit.Due.{All-Member, get_next_due_item-cases}
use omni_aegis.Audit.Kept.{Same, Entry, Kept, work_on-Kept, upsert_item-Kept}
use omni_aegis.Audit.Settled.{SettledWith, work_on-Settled}
use omni_aegis.Audit.Worker.{work_on, submit_audit_transaction}

-- A call of `writeAuditRecord`, the worker taking an item, and the worker going on with its item.
pub data Event (fl : Floats) (D E : Type 0) : Type 0 where
  write_record : String → D → E → fl.Float → Bool → Event fl D E
  take_due : fl.Float → Event fl D E
  go_on : Answers fl D E → Event fl D E

module _ {fl : Floats} {D E : Type 0} (c : AuditServiceConfig fl D E) where
  unfoldable pub go_on_with : Answers fl D E → State fl D E → RetryWorker fl D E → State fl D E
  go_on_with a s idle = s
  go_on_with a s (busy item) = work_on c a item s
  go_on_with a s dead = s

  unfoldable pub take_if_idle : fl.Float → State fl D E → RetryWorker fl D E → State fl D E
  take_if_idle now s idle = take_item now s
  take_if_idle now s (busy item) = s
  take_if_idle now s dead = s

  unfoldable pub apply : Event fl D E → State fl D E → State fl D E
  unfolding go_on_with take_if_idle
  apply (write_record queue_id decision evidence now written) s =
      (write_audit_record queue_id decision evidence now written s).0
  apply (take_due now) s = take_if_idle now s s.worker
  apply (go_on a) s = go_on_with a s s.worker

  unfoldable pub run : List (Event fl D E) → State fl D E → State fl D E
  unfolding apply
  run [] s = s
  run (event ∷ events) s = run events (apply event s)

  upsert_item-worker :
      (item : PendingAudit fl D E) (written : Bool) (s : State fl D E)
      → (upsert_item item written s).worker ≡ s.worker
  unfolding upsert_item persist_pending_queue
  upsert_item-worker item true s = refl
  upsert_item-worker item false s = refl

  module _ (Good : String → D → Type 0) (id : String) (begun : Bool) where
    -- The item that the worker holds.
    abbrev pub InHand : RetryWorker fl D E → Type 0
    InHand idle = Unit
    InHand (busy item) = (Same c Good id begun) item
    InHand dead = Unit

    abbrev pub Reached : State fl D E → Type 0
    Reached s = Kept c Good id begun s × InHand s.worker

    Same-values :
        (d : Dict (PendingAudit fl D E))
        → All (Entry c Good id begun) d
        → All (Same c Good id begun) (values d)
    Same-values [] h = tt
    Same-values ((k, item) ∷ d) h = (h.0.1, Same-values d h.1)

    take_item-Reached : (now : fl.Float) (s : State fl D E) → Reached s → Reached (take_item now s)
    unfolding take_item
    take_item-Reached now s h = elim (get_next_due_item-cases now s) [
      | inl (item, found, queued, due, rest) ↦
          rw (take_item, found)
            (
              h.0,
              All-Member (Same c Good id begun) item (values s.pending)
                  (Same-values s.pending h.0.0) queued,
            )
      | inr (nothing, rest) ↦ rw (take_item, nothing) h
    ]

    -- The records written meet the condition.
    abbrev pub Writes : Event fl D E → Type 0
    Writes (write_record queue_id decision evidence now written) = Good queue_id decision
    Writes (take_due now) = Unit
    Writes (go_on a) = Unit

    work_on-Reached :
        (a : Answers fl D E) (item : PendingAudit fl D E) (s : State fl D E)
        → Same c Good id begun item
        → Reached s
        → Reached (work_on c a item s)
    work_on-Reached a item s same h = (
      work_on-Kept c Good id begun a item s same h.0,
      free (work_on c a item s) (work_on c a item s).worker (work_on-Settled c a item s),
    )
      where
        free : (s' : State fl D E) (w : RetryWorker fl D E) → SettledWith c s' w → InHand w
        free s' idle h = tt
        free s' (busy item) h = elim h [ ]
        free s' dead h = tt

    new_audit-Same :
        (queue_id : String) (decision : D) (evidence : E) (now : fl.Float)
        → Good queue_id decision
        → Same c Good id begun (new_audit queue_id decision evidence now)
    new_audit-Same queue_id decision evidence now good = (good, λ at_tx. absurd (cc at_tx))

    write_audit_record-Reached :
        (queue_id : String) (decision : D) (evidence : E) (now : fl.Float) (written : Bool)
        (s : State fl D E)
        → Good queue_id decision
        → Reached s
        → Reached (write_audit_record queue_id decision evidence now written s).0
    unfolding write_audit_record
    write_audit_record-Reached queue_id decision evidence now written s good h = (
      upsert_item-Kept c Good id begun (new_audit queue_id decision evidence now) written s
          (new_audit-Same queue_id decision evidence now good) h.0,
      subst InHand (sym (upsert_item-worker _ written s)) h.1,
    )

    take_if_idle-Reached :
        (now : fl.Float) (s : State fl D E) (w : RetryWorker fl D E)
        → Reached s
        → Reached (take_if_idle now s w)
    unfolding take_if_idle
    take_if_idle-Reached now s idle h = take_item-Reached now s h
    take_if_idle-Reached now s (busy item) h = h
    take_if_idle-Reached now s dead h = h

    go_on_with-Reached :
        (a : Answers fl D E) (s : State fl D E) (w : RetryWorker fl D E)
        → InHand w
        → Reached s
        → Reached (go_on_with a s w)
    unfolding go_on_with
    go_on_with-Reached a s idle same h = h
    go_on_with-Reached a s (busy item) same h = work_on-Reached a item s same h
    go_on_with-Reached a s dead same h = h

    apply-Reached :
        (event : Event fl D E) (s : State fl D E)
        → Writes event
        → Reached s
        → Reached (apply event s)
    unfolding apply
    apply-Reached (write_record queue_id decision evidence now written) s good h =
        write_audit_record-Reached queue_id decision evidence now written s good h
    apply-Reached (take_due now) s good h = take_if_idle-Reached now s s.worker h
    apply-Reached (go_on a) s good h = go_on_with-Reached a s s.worker h.1 h

    pub run-Reached :
        (events : List (Event fl D E)) (s : State fl D E)
        → All Writes events
        → Reached s
        → Reached (run events s)
    unfolding run
    run-Reached [] s good h = h
    run-Reached (event ∷ events) s good h =
        run-Reached events (apply event s) good.1 (apply-Reached event s good.0 h)

  -- A service that starts with no queue.
  abbrev pub started : State fl D E
  started = record { pending = []; file = []; sent = []; worker = idle }

  -- Records with an id have a decision.
  abbrev pub OnlyFor : String → D → String → D → Type 0
  OnlyFor id decision queue_id d = queue_id ≡ id → d ≡ decision

  write_audit_record-there :
      (id : String) (decision : D) (evidence : E) (now : fl.Float) (written : Bool)
      (s : State fl D E)
      → is_some (lookup id (write_audit_record id decision evidence now written s).0.pending) ≡ true
  unfolding write_audit_record upsert_item persist_pending_queue
  write_audit_record-there id decision evidence now true s =
      rw (lookup-insert id id (new_audit id decision evidence now) s.pending, str_eq_refl id)
  write_audit_record-there id decision evidence now false s =
      rw (lookup-insert id id (new_audit id decision evidence now) s.pending, str_eq_refl id)

  every_write : (events : List (Event fl D E)) → All (Writes (λ queue_id d. Unit) "" false) events
  every_write [] = tt
  every_write (write_record queue_id decision evidence now written ∷ events) =
      (tt, every_write events)
  every_write (take_due now ∷ events) = (tt, every_write events)
  every_write (go_on a ∷ events) = (tt, every_write events)

  -- No audit is lost while the process runs: after `writeAuditRecord` has queued a decision, and
  -- after any further calls of it and events of the worker, whatever the network, the chain and the
  -- file system answer, the record is in the queue in memory or the node has answered its transaction
  -- with a hash, and no entry of the queue has its id with another decision. The ids of the other
  -- records must differ from it, as random UUIDs do; the worker may have died. A restart, which reads
  -- the queue from its file, is not among the events.
  pub write_audit_record-Kept :
      (id : String) (decision : D) (evidence : E) (now : fl.Float) (written : Bool)
      (earlier later : List (Event fl D E))
      → All (Writes (OnlyFor id decision) id false) earlier
      → All (Writes (OnlyFor id decision) id true) later
      → Kept c
          (OnlyFor id decision)
          id
          true
          (run later (write_audit_record id decision evidence now written (run earlier started)).0)
  write_audit_record-Kept id decision evidence now written earlier later before after =
      (run-Reached (OnlyFor id decision) id true later _ after
        ((queued.0.0, λ b. inl (there (run earlier started))), queued.1)).0
    where
      queued :
          Reached
            (OnlyFor id decision)
            id
            false
            (write_audit_record id decision evidence now written (run earlier started)).0
      queued =
          write_audit_record-Reached (OnlyFor id decision) id false id decision evidence now written
            _ (λ same. refl)
            (run-Reached (OnlyFor id decision) id false earlier started before
              ((tt, λ b. absurd (cc b)), tt))

      there :
          (s : State fl D E)
          → is_some (lookup id (write_audit_record id decision evidence now written s).0.pending)
            ≡ true
      there s = write_audit_record-there id decision evidence now written s

  -- A transaction is only sent with its evidence: in a service that starts with no queue, the worker
  -- never fails on an item at the stage "tx" for a missing evidence CID.
  pub submit_audit_transaction-missing_evidence_cid :
      (events : List (Event fl D E)) (a : Answers fl D E) (item : PendingAudit fl D E)
      → (run events started).worker ≡ busy item
      → item.stage ≡ tx
      → submit_audit_transaction a item ≢ some missing_evidence_cid
  submit_audit_transaction-missing_evidence_cid events a item held at_tx missing =
      let reached =
        run-Reached (λ queue_id d. Unit) "" false events started (every_write events)
          ((tt, λ b. absurd (cc b)), tt) in
      let same = subst (InHand (λ queue_id d. Unit) "" false) held reached.1 in
      elim (Bool-cases (is_some a.submit)) [
        | inl accepted ↦ absurd (cc (rw (same.1 at_tx, accepted) at missing))
        | inr refused ↦ absurd (cc (rw (same.1 at_tx, refused) at missing))
      ]
