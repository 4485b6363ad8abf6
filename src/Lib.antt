-- ===== src/Lib.antt =====
-- iorec, a flight recorder for the inference traffic of agents (the Rust crate at the repository's
-- root): its event parser, its audit log, its capture policy, the graph and the task index
-- that it reads out of a run, the choice of a probe helper, the event log, the upload of a run, the
-- storage quota, and the collector that the platform configures and sends requests to.
--
-- The recorder takes the bytes of model traffic off a proxy, parses them into events, and keeps
-- them with an account of what was seen. What is modelled here is the logic that decides what is
-- recorded and what is refused; the network, the file system and the third-party crates are not.
--
-- Files, and the source that they model:
--   Prelude, Bytes   names and helpers: byte strings, UTF-8 validity and decimal numbers, as the
--                    standard library has them; results with `?`, saturating 64-bit addition
--   Json             serde_json::Value, as far as the source reads it
--   Model            src/model.rs: events, their envelopes, and EventEnvelope::validate
--   Sse              src/sse.rs: find_event_end (Sse/Scan), parse_event (Sse/Event), SseParser::push
--                    and finish (Sse/Parser)
--   Input            src/input.rs: validate_json_complexity and its limits
--   Audit            src/audit.rs: AuditRecord and its checks (Audit/Record), reading, searching and
--                    appending to the log (Audit/Log)
--   Metadata         src/metadata.rs: bounded_string
--   Policy           src/policy.rs: the names of secrets (Policy/Secrets), CapturePolicy and validate
--                    (Policy/Capture), sanitize_headers (Policy/Headers), JsonSanitizer
--                    (Policy/Sanitize)
--   State            src/state.rs: the pass over the events of analyze_with_key_and_limit
--                    (State/Observe) and the graph it builds (State/Build)
--   Tasks            src/tasks.rs: logical_task_id and load_with_key (Tasks/Index)
--   ProbePolicy      src/probe_policy.rs: a policy's rules and when they match (ProbePolicy/Rule),
--                    select_probe_helper and revalidate_for (ProbePolicy/Select)
--   EventLog         src/crypto.rs: encrypt_event_record, decrypt_event and is_encrypted_event
--                    (EventLog/Cipher); src/storage.rs: encode_envelope and decode_event
--                    (EventLog/Record),
--                    append_batch with append_jsonl_records on a disk that can run out of room
--                    (EventLog/Append), recover_jsonl_records and recover_events_with_key
--                    (EventLog/Recover)
--   Upload           src/upload.rs: validate_state_prefix (Upload/State), build_batch_plans_range
--                    and extend_state_to (Upload/Plan), load_segment_chain and
--                    select_segment_cursor (Upload/Chain), select_expected_segment_cursor,
--                    load_or_create_state and segment_logical_bytes (Upload/Cursor),
--                    verify_retention_gate (Upload/Gate), reconcile_remote, validate_ack and the
--                    loop over the batches (Upload/Remote)
--   Control          src/control.rs: merge_content_policy (Control/Merge), merge_retention_policy and
--                    merge_remote_config (Control/Remote), apply_new_run_config (Control/Apply)
--   Collector        src/control.rs: the state and its writes (Collector/Daemon), ensure_registered and
--                    prepare_active_request_operation (Collector/Execute), execute_request
--                    (Collector/Work and Collector/Delete), resume_inflight, process_request,
--                    heartbeat, cycle and run_collector (Collector/Cycle)
--   Quota            src/storage.rs: reserve_blob_storage and release_blob_storage as the steps of
--                    tasks that share a counter (Quota/Reserve)
--
-- Bytes are natural numbers, texts are lists of them, and sizes are natural numbers; 64-bit
-- counters saturate where the source saturates. A loop that takes bytes off a buffer or a file runs
-- on fuel equal to the length of what is left; each round takes at least one byte, and the theorems
-- about the results (Sse/Progress, Audit/Verify, EventLog/Torn) show that the loop has stopped by
-- its own test.
--
-- Taken as parameters: the JSON text of an audit record, the record that a text stands for and the
-- hexadecimal digest (Audit.Record.Codec), and what the system supplies to an append (time, user,
-- process, event ID: Audit.Log.Ambient); the hexadecimal SHA-256 of a text; the test of a header's
-- name and the text of its value; the JSON texts of an event and of an encrypted record, base64,
-- and XChaCha20-Poly1305 with the nonces that it draws (EventLog.Cipher.Codec and EncryptionKey;
-- EventLog/Sealed says what the proofs ask of them), the room of the disk, the outcome of its
-- synchronisation, and the recovery of a log of compressed blocks; the JSON text of an upload
-- state, the parsing of a URL, the exchange of a batch with the platform, and the clock; the check
-- of a helper's path and the digest of its file; the test of a name as an HTTP header and the JSON
-- text of a configuration; what a collector's request calls of the run store, the upload and the
-- retention (Collector.Execute.Calls), and how each call that leaves the collector goes
-- (Collector.Daemon.Luck: it works, fails, or takes effect and then fails).
-- The collector's times are left out: whether its session is valid is a Boolean of the state, and the
-- time stamps of the state and a request's expiry, which nothing modelled reads, are not kept. A call
-- of the uploads or the retention of a cycle is one that may fail and changes nothing modelled but the
-- session. A write of the state that validate_state refuses is one that fails.
-- Not modelled: locks, permissions, partial writes of the audit log, the parsing of JSON text into
-- values, the reading of a run's manifest and event log (State and Tasks take the events as a list,
-- and the plan of an upload takes what the reader gives), the log of compressed blocks and the blob
-- files, the task around append_batch, the requests to the platform, and the other parts of the
-- recorder (the proxy, packet capture, the transport audit, retention, replay).
pub mod Prelude
pub mod Audit
pub mod Bytes
pub mod Collector
pub mod Control
pub mod EventLog
pub mod Input
pub mod Json
pub mod Metadata
pub mod Model
pub mod Policy
pub mod ProbePolicy
pub mod Quota
pub mod Sse
pub mod State
pub mod Tasks
pub mod Upload
