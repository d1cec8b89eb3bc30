-- ===== src/Audit/Worker.antt =====
-- One iteration of the retry worker, after it has taken an item.
use Prim.Native.String.{String}
use text.Mathlib.Text.{◌==◌ as str_eq}
use omni_aegis.Prelude.Dict.{lookup, insert}
use omni_aegis.Prelude.{ℕ, ◌+◌, ◌-◌, Bool, true, false, ◌∷◌, Option, none, some, if◌then◌else◌}
use omni_aegis.Redis.{is_some}
use omni_aegis.Audit.{
  Floats, AuditError, ipfs, tx, gas_too_high, gas_unknown, missing_evidence_cid, service_failed,
  disk_failed, AuditServiceConfig, PendingAudit, State, Answers, idle, dead, lt, fmin, upsert_item,
  remove_item,
}

abbrev pub gas_error {ℓ} : {A : Type ℓ} → Option A → AuditError
gas_error none = gas_unknown
gas_error (some standard_gwei) = gas_too_high

-- `not item.evidence_cid`.
abbrev pub no_cid : Option String → Bool
no_cid none = true
no_cid (some cid) = str_eq cid ""

module _ {fl : Floats} {D E : Type 0} where
  -- `GasPriceManager.should_defer` at a snapshot.
  abbrev pub should_defer : AuditServiceConfig fl D E → Option fl.Float → Bool
  should_defer c none = false
  should_defer c (some standard_gwei) = lt fl D E c.max_allowed_gwei standard_gwei

  -- The delay before the next attempt; none is an OverflowError.
  abbrev pub capped : AuditServiceConfig fl D E → Option fl.Float → Option fl.Float
  capped c none = none
  capped c (some x) = some (fmin fl D E c.retry_cap_seconds x)

  unfoldable pub retry_delay : AuditServiceConfig fl D E → ℕ → Option fl.Float
  retry_delay c attempts = capped c (fl.times_pow2 c.retry_base_seconds (attempts - 1))

  -- An item is changed in place: the queue sees it if it still has the item.
  abbrev pub change_item : PendingAudit fl D E → State fl D E → State fl D E
  change_item item s =
      if is_some (lookup item.queue_id s.pending)
      then record s { pending = insert item.queue_id item s.pending }
      else s

  -- The `except` clause of `_retry_worker`. An exception of its own ends the worker.
  unfoldable pub fail_item :
      AuditServiceConfig fl D E
      → Answers fl D E
      → AuditError
      → PendingAudit fl D E
      → State fl D E
      → State fl D E
  unfolding upsert_item retry_delay
  fail_item c a error item s =
      let attempts = item.attempts + 1 in
      elim (retry_delay c attempts) [
        | none ↦
            let s' = change_item (record item { attempts = attempts }) s in
            record s' { worker = dead }
        | some delay ↦
            let s' =
              upsert_item
                (record item {
                  attempts = attempts;
                  next_retry_unix = fl.add a.time_again delay;
                  last_error = some error;
                })
                a.write_again s in
            record s' { worker = if a.write_again then idle else dead }
      ]

  -- The end of the `try` block: the queue has been written, or that raised.
  unfoldable pub end_try :
      AuditServiceConfig fl D E → Answers fl D E → PendingAudit fl D E → State fl D E → State fl D E
  unfolding fail_item
  end_try c a item s =
      if a.write then record s { worker = idle } else fail_item c a disk_failed item s

  -- `_upload_evidence_to_ipfs`: an answer without a hash raises.
  abbrev pub upload_evidence_to_ipfs : Answers fl D E → Option String
  upload_evidence_to_ipfs a = if no_cid a.upload then none else a.upload

  abbrev pub uploaded_item : Answers fl D E → String → PendingAudit fl D E → PendingAudit fl D E
  uploaded_item a cid item = record item {
    evidence_cid = some cid;
    stage = tx;
    attempts = 0;
    next_retry_unix = a.time;
    last_error = none;
  }

  -- The branch for the stage "ipfs".
  unfoldable pub work_on_ipfs :
      AuditServiceConfig fl D E → Answers fl D E → PendingAudit fl D E → State fl D E → State fl D E
  unfolding upsert_item end_try fail_item
  work_on_ipfs c a item s = elim (upload_evidence_to_ipfs a) [
    | none ↦ fail_item c a (service_failed a.failure) item s
    | some cid ↦
        let item' = uploaded_item a cid item in end_try c a item' (upsert_item item' a.write s)
  ]

  -- `_submit_audit_transaction`, as far as it can raise.
  abbrev pub submit_audit_transaction : Answers fl D E → PendingAudit fl D E → Option AuditError
  submit_audit_transaction a item =
      if no_cid item.evidence_cid
      then some missing_evidence_cid
      else if is_some a.submit
      then none
      else some (service_failed a.failure)

  unfoldable pub defer_item :
      AuditServiceConfig fl D E → Answers fl D E → PendingAudit fl D E → State fl D E → State fl D E
  unfolding upsert_item end_try
  defer_item c a item s =
      let item' = record item {
        next_retry_unix = fl.add a.time c.gas_poll_interval_seconds;
        last_error = some (gas_error a.standard_gwei);
      } in
      end_try c a item' (upsert_item item' a.write s)

  -- The branch for the stage "tx".
  unfoldable pub work_on_tx :
      AuditServiceConfig fl D E → Answers fl D E → PendingAudit fl D E → State fl D E → State fl D E
  unfolding defer_item remove_item end_try fail_item
  work_on_tx c a item s =
      if should_defer c a.standard_gwei
      then defer_item c a item s
      else elim (submit_audit_transaction a item) [
        | some error ↦ fail_item c a error item s
        | none ↦
            let item' = record item { tx_hash = a.submit } in
            end_try c a item'
              (remove_item item.queue_id a.write (record s { sent = item' ∷ s.sent }))
      ]

  -- The rest of the iteration, after the item has been taken.
  unfoldable pub work_on :
      AuditServiceConfig fl D E → Answers fl D E → PendingAudit fl D E → State fl D E → State fl D E
  unfolding work_on_ipfs work_on_tx
  work_on c a item s = elim item.stage [
    | ipfs ↦ work_on_ipfs c a item s
    | tx ↦ work_on_tx c a item s
  ]
