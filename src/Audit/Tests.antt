-- ===== src/Audit/Tests.antt =====
-- Runs of the audit service with whole seconds, and its theorems at concrete inputs.
use Prim.Native.String.{String}
use text.Mathlib.Text.{◌==◌ as str_eq}
use text.Mathlib.TextEquality.{eq_iff}
use omni_aegis.Prelude.{
  ℕ, ◌+◌, ◌*◌, ◌^◌, ◌≡◌, ◌≢◌, refl, true, false, ◌⊎◌, List, [], ◌∷◌, map, none, some, arith, leb,
  All, if◌then◌else◌,
}
use omni_aegis.Audit.{
  Floats, AuditServiceConfig, PendingAudit, State, Answers, idle, dead, tx, missing_evidence_cid,
  new_audit, persist_pending_queue, upsert_item, remove_item, write_audit_record, get_next_due_item,
  take_item, values,
}
use omni_aegis.Audit.Worker.{
  fail_item, end_try, retry_delay, work_on, work_on_ipfs, work_on_tx, defer_item,
  submit_audit_transaction,
}
use omni_aegis.Audit.Due.{Member, NoneBefore, NotDue, get_next_due_item-cases}
use omni_aegis.Audit.Kept.{Kept}
use omni_aegis.Audit.Settled.{Settled, work_on-Settled}
use omni_aegis.Audit.Reached.{
  Event, write_record, take_due, go_on, take_if_idle, go_on_with, apply, run, started, OnlyFor,
  write_audit_record-Kept, submit_audit_transaction-missing_evidence_cid,
}
use omni_aegis.Audit.Overflow.{work_on-dead}

abbrev seconds : Floats
seconds = record {
  Float = ℕ;
  le = leb;
  add = λ a b. a + b;
  times_pow2 = λ x k. if leb 1024 k then none else some (x * 2 ^ k);
  le-total = λ a b. ground arith;
  le-trans = λ a b c h h'. ground arith;
  times_pow2-overflow = λ x k h. ground arith;
}

abbrev config : AuditServiceConfig seconds String Unit
config = record {
  max_allowed_gwei = 100;
  gas_poll_interval_seconds = 15;
  retry_base_seconds = 1;
  retry_cap_seconds = 120;
}

-- Everything works at a time.
abbrev fine : ℕ → Answers seconds String Unit
fine time = record {
  upload = some "cid";
  submit = some "hash";
  failure = "down";
  standard_gwei = some 30;
  write = true;
  write_again = true;
  time = time;
  time_again = time;
}

abbrev Events : Type 0
Events = List (Event seconds String Unit)

program : Unit {0}
unfolding persist_pending_queue upsert_item remove_item write_audit_record get_next_due_item
    take_item take_if_idle go_on_with apply run fail_item end_try retry_delay work_on work_on_ipfs
    work_on_tx defer_item
program = tt

-- A record is uploaded, its transaction is put off while gas is dear, and then sent.
abbrev dear_gas : Answers seconds String Unit
dear_gas = record (fine 12) { standard_gwei = some 130 }

abbrev upload_events : Events
upload_events =
    write_record "a" "block" tt 10 true ∷ take_due 10 ∷ go_on (fine 11) ∷ take_due 11 ∷ []

abbrev after_upload : State seconds String Unit
after_upload = run config upload_events (started config)

put_off : (run config (go_on dear_gas ∷ take_due 20 ∷ []) after_upload).worker ≡ idle
unfolding program
put_off = refl

sent_later :
    (run config (go_on dear_gas ∷ take_due 27 ∷ go_on (fine 28) ∷ []) after_upload).pending ≡ []
unfolding program
sent_later = refl

-- The chain accepts a transaction and the write of the queue then fails: the item is queued again,
-- and its transaction is sent a second time.
abbrev full_disk : Answers seconds String Unit
full_disk = record (fine 12) { write = false }

sent_twice :
    map
      (λ item. item.queue_id)
      (run config (go_on full_disk ∷ take_due 20 ∷ go_on (fine 21) ∷ []) after_upload).sent
    ≡ "a" ∷ "a" ∷ []
unfolding program
sent_twice = refl

-- A failed upload is tried again after the base delay.
abbrev outage : Answers seconds String Unit
outage = record (fine 10) { upload = none }

tried_again :
    (run config
      (write_record "a" "block" tt 10 true ∷ take_due 10 ∷ go_on outage ∷ take_due 10 ∷ [])
      (started config)).worker
    ≡ idle
unfolding program
tried_again = refl

other_id : {d : String} (id : String) → str_eq id "a" ≡ false → id ≡ "a" → d ≡ "block"
other_id id apart same = absurd (cc (apart, (eq_iff id "a").1 same))

write_audit_record-Kept_example : Kept config (OnlyFor config "a" "block") "a" true (
    run config
      (take_due 10 ∷ go_on outage ∷ write_record "c" "allow" tt 11 false ∷ [])
      (write_audit_record "a" "block" tt 10 true
        (run config (write_record "b" "allow" tt 9 true ∷ []) (started config))).0)
write_audit_record-Kept_example =
    write_audit_record-Kept config "a" "block" tt 10 true (write_record "b" "allow" tt 9 true ∷ [])
      (take_due 10 ∷ go_on outage ∷ write_record "c" "allow" tt 11 false ∷ [])
      (other_id "b" refl, tt) (tt, (tt, (other_id "c" refl, tt)))

abbrev uploaded : PendingAudit seconds String Unit
uploaded = record (new_audit "a" "block" tt 10) {
  stage = tx;
  attempts = 0;
  next_retry_unix = 11;
  evidence_cid = some "cid";
}

submit_audit_transaction-missing_evidence_cid_example :
    submit_audit_transaction (fine 12) uploaded ≢ some missing_evidence_cid
unfolding program
submit_audit_transaction-missing_evidence_cid_example =
    submit_audit_transaction-missing_evidence_cid config upload_events (fine 12) uploaded refl refl

work_on-Settled_example :
    Settled config (work_on config outage (new_audit "a" "block" tt 10) after_upload)
work_on-Settled_example = work_on-Settled config outage (new_audit "a" "block" tt 10) after_upload

get_next_due_item-cases_example :
    ((item : PendingAudit seconds String Unit) × (get_next_due_item 20 after_upload ≡ some item)
      × Member item (values after_upload.pending)
      × (leb item.next_retry_unix 20 ≡ true)
      × NoneBefore 20 item (values after_upload.pending))
    ⊎ ((get_next_due_item 20 after_upload ≡ none) × All (NotDue 20) (values after_upload.pending))
get_next_due_item-cases_example = get_next_due_item-cases 20 after_upload

-- An item after 1024 attempts that failed.
abbrev worn : PendingAudit seconds String Unit
worn = record (new_audit "a" "block" tt 10) { attempts = 1024 }

work_on-dead_example :
    ((work_on config outage worn after_upload).worker ≡ dead)
    × ((run config
          (take_due 20 ∷ go_on (fine 20) ∷ [])
          (work_on config outage worn after_upload)).sent
        ≡ after_upload.sent)
work_on-dead_example =
    work_on-dead config outage worn after_upload (take_due 20 ∷ go_on (fine 20) ∷ []) refl refl
      (omega arith)
