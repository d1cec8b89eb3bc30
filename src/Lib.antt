-- ===== src/Lib.antt =====
-- OmniAegis, the decision layer: models of its services and the theorems about them.
--
-- decision_layer/services/fl_coordinator/smpc_aggregator.py sums the model updates of the
-- federated-learning clients under additive secret sharing. Smpc.antt has one function for each
-- method: `encode_fixed`, `decode_fixed`, `split_into_shares`, `party_sum`, `secure_sum` and
-- `secure_average` for `_encode_fixed` and so on. Smpc/Residues and Smpc/Vectors are arithmetic mod
-- the prime, Smpc/Shares and Smpc/Fixed are about one tensor, Smpc/Sum about the protocol. A tensor
-- is a shape and its elements in order; int64 arithmetic keeps its wrap; floats, numpy's roundings
-- and the random draws are parameters.
--
-- decision_layer/services/batch_coordinator.py collects decisions, builds a Merkle tree over each
-- window and anchors its root. Merkle.antt models the digest selection, the canonical leaf bytes,
-- `_build_merkle_batch`, the rows of `_persist_batch` and `_fetch_proof_hashes`. The loops
-- `while len(current) > 1` and `while True` run on fuel: the number of leaves is enough for the
-- first, one more for the second. The digests, the doubles and the `SELECT` are parameters; a row is a dict.
--
-- decision_layer/services/hitl_monitor.py is the queue of human review in Redis. Hitl.antt has one
-- function for each method and for the claim script, over the sorted sets and the expiring keys of
-- Redis.antt, which are records of operations with laws. The rounds of the two maintenance loops are
-- functions of their own, since other clients' calls may come between them, and the three calls of a
-- reclaim are the steps of `reclaim_step`; Hitl/Trace lets all of them interleave freely, and
-- Hitl/Exclusive follows a claim through it. A hash is kept as the item that is read
-- back and its last score, the metadata left out; floats, `strip`, `lower` and the graph's
-- neighbours are parameters. Redis calls that fail are not modelled.
--
-- decision_layer/services/audit_service.py writes decisions to IPFS and the Polygon chain. Audit.antt
-- models the pending queue, its file and the choice of the due item, Audit/Worker.antt the two stages
-- of an iteration of `_retry_worker`. Its exceptions are values: the answers of the network, the
-- disk and the clock are given to each iteration, and an exception in the handler leaves the worker
-- dead. An iteration is two events, the choice of an item and the rest, so that calls of
-- `writeAuditRecord` come between. Decisions and evidence packages are opaque.
--
-- decision_layer/services/fl_coordinator/round_monitor.py starts the rounds of federated learning from
-- the buffer of decision_layer/shared/training_buffer.py. Round.antt has one function for each method,
-- and one for each of the two ways in which an iteration of `run_forever` starts a round
-- (`poll_threshold`, `poll_trigger`); JSON and floats are parameters, the loop of attempts counts
-- down `max_retries`, and the keys in Redis do not expire in the model.
--
-- The policy proposals of decision_layer/services/batch_coordinator.py are in Policy.antt: proposing,
-- collecting signatures and anchoring on the chain, over dicts that stand for the two tables.
--
-- decision_layer/services/fl_edge/state_space.py and sentinel_env.py are the reinforcement-learning agent's
-- state and environment. Sentinel.antt reads a state out of raw values (Values.antt) as `from_raw` does,
-- Sentinel/Env has the rewards, Sentinel/Dynamics the answer to an action without samples, Sentinel/Steps
-- `step` and `reset`. Doubles.antt gives the floats, with NaN and the infinities, by their operations, and
-- their laws apart: those that hold with NaN, and those among finite numbers that rounding keeps, which
-- a theorem names when it takes them. An exception is none.
--
-- The batch windows of decision_layer/services/batch_coordinator.py are in Windows.antt: the tables of
-- decisions, batches and tree nodes, the cursor, `_anchor_pending_window` and `get_merkle_proof`. The
-- tree of a batch comes from Merkle.antt. A cycle is one event, given the answers of the clock, the
-- database and the chain; a decision that is stored while a cycle runs counts as stored after it. The
-- loop of a proof has fuel for one level more than the batch has leaves, with which it always ends.
--
-- decision_layer/services/fl_edge/redis_experience_buffer.py keeps the agent's episodes. Replay.antt models the two
-- Redis lists, the script that appends and trims, `_prepare_episode` and `sample_batch`. MessagePack, numpy's sum and
-- its generator are parameters; the generator's draws are numbered within a call.
--
-- decision_layer/services/fl_edge/shadow_mode.py compares the agent's policy with the baseline. Shadow.antt has
-- `process_asset`, the log in Redis and the metrics over it; the policies, JSON and the answers of the clock and Redis
-- are parameters, and an inference that is not there in time is the value `timed_out`.
--
-- decision_layer/app/auth_api.py signs users in. Auth.antt has the token of the header, the user that is built of
-- Firebase's claims, the profile in Firestore and `require_admin`. `get_current_user` and `sync_session` share
-- `signed_in`, without and with a body.
pub mod Prelude
pub mod Doubles
pub mod Values
pub mod Smpc
pub mod Merkle
pub mod Redis
pub mod Hitl
pub mod Audit
pub mod Round
pub mod Sentinel
pub mod Policy
pub mod Windows
pub mod Replay
pub mod Shadow
pub mod Auth
