-- ===== src/Lib.antt =====
-- Wirewolf, a network intrusion detection engine: a capture stage reassembles TCP streams into
-- flows, a filter stage drops what is harmless, an LLM stage judges the rest, and alerts go to the
-- user interface and, in inline mode, to a blocklist. The stages are threads joined by bounded
-- priority queues. Paths below are from the repository's root.
--
-- include/thread_safe_queue.hpp, the queue between the stages: Queue has the multimap's operations
-- `push` (with its emergency drop and its wait), `pop`, `finish` and `set_blocking`. A call that
-- waits on a condition variable gives `waits`; Queue.Threads is the system of threads in which it
-- wakes up later, one step for each stretch that holds the mutex. Queue.Refines states the queue's
-- contract as one list for each priority, and Queue.Drain is a consumer's loop. The priority is a
-- natural number, as every caller's is.
--
-- src/tcp_reassembly.cpp, `process_ip_packet`: Reassembly.Header parses the headers, with a read
-- outside the capture as `none`; Reassembly.Table finds or makes the connection's entry
-- (`MAX_CONNECTIONS`, `force_evict_oldest`); Reassembly.Connection is what one packet does to it
-- (`ConnectionState`); Reassembly.Overlap is the evasion check and Reassembly.Segments the delivery
-- of a segment, with the wrapped sequence numbers of Reassembly.Seq. Reassembly.Blocklist is the
-- inline mode's blocklist, each call of which holds its mutex, and Reassembly.Allowlist what
-- `set_block_allowlist` reads. Reassembly.Expiry is the part of `evict_stale_state` that works on
-- the connection table and hands flows on, Anomaly.Caps the rest of it; Reassembly.Complete is
-- `check_complete_flows` and `flush_all_flows`, and Reassembly.Behavior the live scoring of
-- `record_and_score_behavioral`.
--
-- The same file's `check_connection_anomalies`, `check_beaconing_at_flush` and
-- `check_mass_mailing_at_flush`: Anomaly has the trackers as data, Anomaly.Tracker what a packet
-- changes in them, Anomaly.Alerts the single rules and `emit_alert`, Anomaly.Check their order,
-- Anomaly.Beacons and Anomaly.Mailing the two checks at the end of a capture.
--
-- The same file's loops: Capture is `process_packet`, `process_ip_packet` as a whole, `run_pcap` and
-- `run_windivert`, over the sequence of what libpcap and WinDivert deliver; the children of Capture
-- are what the loops keep safe.
--
-- src/behavioral_model.cpp: Behavioral, with the encoding of a connection and the Markov counts;
-- Behavioral.Store is `serialize` and `load`, over the bytes of the text.
--
-- src/npu_filter.cpp, in the build without OpenVINO: Filter.Worker is `worker_loop` with its
-- duplicate filters, Filter.Decide what it decides for one flow, in the order of the source, and the
-- other children of Filter are the detectors that it asks: Filter (Heartbleed, SPNEGO), Ftp,
-- Credentials, Http, Smb, Rat, Injection, Handshake (`inspect_tls`) and Features
-- (`statistical_filter`).
--
-- src/llm_inference.cpp: Llm.Verdict is a round of `worker_loop`, with Llm.Tagged for a flow that an
-- earlier stage has tagged, Llm.Sanitize and Llm.Context for the prompt and Llm.Suppress for the
-- checks of the answer. `generate_response` and the texts of the prompt's frame are parameters.
--
-- src/pipeline_controller.cpp: Pipeline is the callback that turns an alert of the LLM stage into a
-- report and, in inline mode, a block, and Pipeline.Report runs the stage and the callback over a
-- sequence of flows; Pipeline.Lifecycle has `start`, `stop` and the phases of the pipeline's thread,
-- failures included, as events in any order; Pipeline.Stats has the monitor's figures.
--
-- src/wirewolf_capi.cpp: Capi has the C structures and the copies into their buffers, Capi.Settings
-- the setters, Capi.Pending the queues that are polled, and Capi.Control the life of an instance and
-- the queries.
--
-- tools/train_behavioral/train.cpp: Trainer, with its labels, its training loop, the counts
-- of its evaluation, and `days_from_civil`, which Trainer.Calendar compares with the calendar of
-- Trainer.Gregorian.
--
-- include/wirewolf_types.hpp: Severity, Severity.Table, Severity.Resolve and Severity.Confidence,
-- with CVSS scores in tenths. src/alert_json.cpp and the alert callback of
-- src/pipeline_controller.cpp: Alert. include/payload_normalizer.hpp: Normalizer, with the decoding
-- in Normalizer.Decode and the folding in Normalizer.Fold. include/tls_inspector.hpp: Tls,
-- Tls.Extensions and Tls.Md5. include/threat_feed.hpp: ThreatFeed. include/proxy_db.hpp: ProxyDb.
-- include/config.hpp: Config. Tests applies the theorems at concrete inputs, and Base holds what the
-- modules share.
--
-- Numbers are natural numbers with the wrap-around of a machine word written out; texts are lists of
-- bytes. Floating-point operations (Base.Doubles, and the logarithms in Behavioral and
-- Filter.Features), the number parsers of the standard library (Config, Behavioral.Store, and `sscanf` in
-- Reassembly.Allowlist), `std::hash`, the printed score of an alert and the file system are
-- parameters.
--
-- Bounds and fuel: the extension loop of the TLS parser runs on the payload's length plus one, and
-- each round passes at least the four bytes of an extension's header; the binary search runs on the
-- number of rows, and each round shrinks the range; the normalizer's three passes are the source's.
-- The pipeline's thread is driven for as many stretches as are listed, and eleven are enough after
-- `stop`; a consumer of the queue is driven for one call more than there are items. All other loops
-- are structural. What the reassembly theorems say of a stream holds for its first 2 GiB, where the
-- 32-bit order is that of the offsets.
--
-- Not modelled: the opening of the capture devices, logging, the GUI, the wiring of callbacks in
-- src/pipeline_controller.cpp, OpenVINO and llama.cpp, the text of the system prompt, the texts of
-- the anomaly alerts, the diagnostics of `check_beaconing_at_flush`, the texts of
-- fingerprints, the files of the trainer, the other tools, and times of day.
pub mod Base
pub mod Queue
pub mod Reassembly
pub mod Packet
pub mod Severity
pub mod Alert
pub mod Normalizer
pub mod Tls
pub mod ProxyDb
pub mod ThreatFeed
pub mod Config
pub mod Filter
pub mod Behavioral
pub mod Anomaly
pub mod Capture
pub mod Trainer
pub mod Llm
pub mod Pipeline
pub mod Capi
pub mod Tests
