-- ===== src/Lib.antt =====
-- The evidence queue of the VIRULE client, src/shared/evidence_queue.hpp: how packages of
-- evaluation evidence leave a computer, and how early completions and reports do; whose evidence it
-- is, src/client/evidence_owner.hpp; the transfers, src/client/transfers.hpp: how evaluation builds
-- are uploaded, and how games are installed and updated; and the record of failed update checks.
--
-- The program. The wrapper hands a package to the client as a directory of the outbox. The evidence
-- thread runs passes: `run_pass` visits every package, verifies it, decides whose account it waits
-- for, offers it to a transport, and turns the answer into a receipt or a later attempt;
-- `run_requests` does the same with the early completions and the reports. What has happened to a
-- package stands in its delivery state, a document written again at every change.
--
-- The transfer thread runs passes over jobs, each a record on disk with a stage. An upload is let
-- through only by the client's own sealed verification of the package (src/client/
-- upload_verification.hpp); an install is downloaded, verified, extracted, scanned, and placed once the
-- service's current word is in. A job that cannot go on waits on the ladder of the evidence queue.
--
-- The model. `World` (Evidence/World) is the evidence root: the outbox, the receipts, the delivery
-- documents, the requests with their delivery states and receipts, and the two counters. Each
-- operation maps a world to a world. What the file system, the clock and the transport answer is
-- given by `Outside`, `Core` and `Transport` as functions of the number of calls made so far, so a
-- theorem speaks of every way in which writes and removals can fail.
--
--   Evidence/Ladder        kBackoffLadder, backoff_seconds
--   Evidence/Json, Core    the JSON reader and the packages and receipts of virule_core, which is
--                          another project's code: parameters, with the laws that theorems ask for
--   Evidence/Document      State, state_json, parse_state
--   Evidence/Answer        Offer, Answer, Transport, parse_answer, service_error, service_code
--   Evidence/World         load_state, save_state, remove_state, note_change
--   Evidence/Outbox        outbox_ids, verify_package
--   Evidence/Attempt       the attempt inside run_pass: on_acked, and what an answer leads to
--   Evidence/Pass          run_pass: one visit, the loop, the sweep of stale delivery states
--   Evidence/Requests      RequestState, finalized_here, local_completeness
--   Evidence/Requests/Visit, Run   run_requests: one request, and the loop
--   Evidence/Driver        one turn of run_driver, and how long it then waits
--   Evidence/Drain         owned_pending and drain_owned_outbox, the uninstall's wait
--   Evidence/Resolver      whose evidence it is: the Resolver of src/client/evidence_owner.hpp
--   Transfers/Job, Site    the job record, the files that the driver owns, the calls of the service that
--                          were made, and what the outside answers (`Env`)
--   Transfers/Outcome      save, defer, fail, hold, keep_incident; `At` is a job with everything else
--   Transfers/Upload       run_upload: Session (open_session, complete_session), Parts (send_parts),
--                          Record (the sealed record and vouches), Examine and Verify (verify_package,
--                          here verify_upload), Run
--   Transfers/Install      run_install: Chain (ensure_launch_chain), Refusal (scan_failed), Download,
--                          Build (extraction, scan, completion), Place (carry_over and the renames), Run;
--                          Entry (safe_entry, the names in a package as lists of bytes)
--   Transfers/Incidents    report_incident, establish_host_detection
--   Transfers/Control      control, set_aside_refusal, begin_removal
--   Transfers/Installed    verify_installed
--   Transfers/Removal      run_removal
--   Transfers/Pass         the visit of a job in run_pass, from the test for its end on
--   Update/Health          whether the update service is out of reach: src/shared/update_health.hpp
--   Prelude                Boolean tests, sets of texts in order, association lists
--   Tests                  the theorems at concrete inputs
--
-- Bounds. Times and counters, which the source holds in int64, are natural numbers here, and a
-- document's negative number reads as none; the change counters wrap at 2 ^ 64 as they do there.
-- A read that fails is not told from an absent file, as in read_document. Every loop over files is
-- a recursion on the list that the source fetched before it. drain_owned_outbox polls for as long as
-- something moves, so its model has fuel, one for each poll, and gives none where the fuel ends
-- first. What its polls see is a function of their number.
--
-- The loop of send_parts has fuel, one for each turn: the parts of the package and their retries are
-- bounded, and the renewals of a session are as many as the service grants. The ranges of a download
-- have fuel, one for each range, and each brings a byte or is the last. Both give none where the fuel
-- ends first. A step of a transfer is numbered as the calls are: `steps` counts the saves, the calls of
-- the service and the other questions to the outside, so that two answers to the same question may
-- differ. Sizes and counts, which the source holds in int64 and uint64, are natural numbers.
--
-- In the transfers a JSON text that the source puts together by hand is built by `object`, with `plain`
-- where it quotes without escaping; find_string_in of src/shared/json_scan.hpp is a parameter. The two
-- scratch folders of a verification are one, and the scan folder beside a staging folder is not kept. A
-- removal of a folder may fail and leave a part of it, as `leaves` says, also where the source does not
-- look at its error; the removal of the downloaded file succeeds. What the walk of carry_over skips
-- (links, files that are not regular, folders that it may not read) is the parameter `is_carried`.
-- The extraction, the scan and the records of verified content are parameters: they are miniz's,
-- Windows's and virule_core's, and the files of client/finding_identity.hpp and verified_digests.hpp.
--
-- Not modelled: the log lines and LogOnce; with_packages, a splice of raw text, which is a parameter;
-- files of the delivery folder whose name is not an id, since a folder is a dictionary of its
-- documents; the test transport, status_json and the wake event. Of the transfers: the bytes that
-- extract_zip and digest_package read, the durable requests of a clearance, run_driver and
-- status_json. The other parts of the client (account, bridge, self update, residency,
-- setup) have no model here.
mod Prelude
pub mod Evidence
pub mod Transfers
pub mod Update
pub mod Tests
