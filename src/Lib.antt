-- ===== src/Lib.antt =====
-- ChallanSe enrichment service (services/enrichment/app): a device uploads the photo of a
-- delivery receipt in parts, the service stores it, reads it with OCR, checks it against a GST
-- e-invoice, and hands it to a reviewer. This library models the state that the service keeps in
-- PostgreSQL and the object store, and the functions that change it.
--
-- The parts and their files:
-- - Prelude: Boolean tests and equality (Prelude/Tests), integers (Prelude/Int), for a part
--   number that may be negative, SQL tables as lists of rows with SELECT, UPDATE, DELETE and
--   ORDER BY (Prelude/Table, Prelude/Order), and exceptions and transactions as values
--   (Prelude/Effects: a raise inside a transaction rolls back).
-- - Stage: the retry ledger `workflow_stages` of services/enrichment/app/storage.py
--   (claim_stage, stage_status, complete_stage, fail_stage). Stage/Run gives sequences of calls,
--   Stage/Attempts and Stage/Lease what holds of them.
-- - Pipeline: the records of services/enrichment/app/schemas.py and the rows of the tables that
--   the pipeline shares.
-- - Image and Gst: verify_webp of services/enrichment/app/images.py and validate_gst of
--   services/enrichment/app/gst.py.
-- - Storage: the transactions of services/enrichment/app/storage.py that store a result, its
--   audit row and its callback; Storage/Saved says what they leave, Storage/Calm that they leave
--   the local queue alone.
-- - Workflow: process_receipt_event of services/enrichment/app/workflow.py, the whole handler,
--   on the operations of Stage and Storage. Workflow/Calm is about the local queue in its
--   course.
-- - LocalQueue and Outbox: the queue and the transactional outbox of
--   services/enrichment/app/queueing.py and services/enrichment/app/outbox.py. An event is
--   claimed under a lock with a time limit, delivered, and marked. LocalQueue/Ended is about how
--   a message ends, Outbox/Kept and Outbox/Queued about what a dispatch keeps.
-- - Worker: a turn of run_worker in services/enrichment/app/local_worker.py, which composes
--   Outbox, LocalQueue and Workflow. It leaves out the health record, the acceptance tests and
--   the waiting.
-- - Audit: the hash chain of audit_events, services/enrichment/app/audit_chain.py and the
--   statements that append to it in services/enrichment/app/authoritative.py.
-- - Upload: create_upload_session of services/enrichment/app/authoritative.py; Upload/Sessions
--   is put_upload_part and get_upload_session, Upload/Complete is complete_upload_session with
--   an object store that may fail at any call.
-- - Devices: authenticate_device and consume_device_nonce of
--   services/enrichment/app/authoritative.py; Devices/Enroll is enroll_device,
--   create_enrollment_code and revoke_device.
-- - Reviews: review_receipt of services/enrichment/app/authoritative.py. Reviews/Versions is
--   about its optimistic lock, Reviews/Sync about the table of verified receipts.
-- - Reconciliation: parse_tally_csv and import_tally_csv of
--   services/enrichment/app/reconciliation.py; Reconciliation/Deltas is record_verified_review
--   and reconciliation_for_site, on the table of verified receipts of Reviews.
--   Reconciliation/Convergence is about the order in which reviews arrive. The csv module is a
--   parameter; floats there are finite.
-- - Members: upsert_membership of services/enrichment/app/authoritative.py. Members/Invitations
--   is create_membership_invitation and accept_membership_invitation.
-- - Ingress: PostgresIngressStore of services/enrichment/app/ingress.py and the route
--   receipt_event of services/enrichment/app/main.py. Ingress/Rows, Ingress/Owned and
--   Ingress/Kept are about its table, Ingress/Once about two requests for one receipt.
-- - Signed: services/enrichment/app/security.py, and _verify_internal_request of
--   services/enrichment/app/main.py.
-- - Pilot: the control of the local pilot in services/enrichment/app/pilot_control.py.
--   Pilot/Prepare is prepare_client_configuration, with bootstrap_tenant of
--   services/enrichment/app/bootstrap.py. Pilot/Protocol is the step relation of the control
--   row, Pilot/Steps the operations that follow it, Pilot/Ended and Pilot/Blocked what follows
--   from it.
-- - SignIn: authenticate of services/enrichment/app/local_auth.py. SignIn/Recovery is about
--   recovery codes, SignIn/Lockout about the lock after failures. The time of the program and
--   that of the database agree there.
--
-- How the code corresponds to the model: each function of the source has one definition of its
-- name. A table is a list of rows in insertion order, or a function of its key; NULL is `none`.
-- Ids, which the source only draws and compares, are numbers, and `next_id` is the next draw of
-- uuid4. Times are microseconds and are arguments: every transaction gets the time that NOW() has
-- in it. Quantities and confidences, which are floats in the source, count thousandths, which a
-- sum does not round. SHA-256, PIL, the OCR and GST services, KMS and S3 are parameters.
--
-- There is no fuel: every loop runs over a list. Transactions that PostgreSQL serialises by row
-- or advisory locks follow one another here, and concurrent workers are sequences of their calls
-- in any order. JSON that is only passed on is its text.
--
-- Not modelled: HTTP routing, configuration, encryption, row level security, the OCR engine, the
-- local administration pages, infrastructure, and the mobile, edge and reviewer applications. Of
-- the bootstrap of a tenant, the sites, vendors and memberships are left out. The configuration
-- of sites and vendors, enrollment and sessions of local reviewers, quotas and retention are not
-- covered yet.
pub mod Prelude
pub mod Stage
pub mod Pipeline
pub mod Image
pub mod Gst
pub mod Storage
pub mod Workflow
pub mod LocalQueue
pub mod Outbox
pub mod Worker
pub mod Audit
pub mod Upload
pub mod Devices
pub mod Reviews
pub mod Reconciliation
pub mod Members
pub mod Signed
pub mod SignIn
pub mod Ingress
pub mod Pilot
