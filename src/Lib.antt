-- ===== src/Lib.antt =====
-- VocationOS: the core that decides whether an application may be sent, what was approved, sent and
-- confirmed, and how records of it are kept.
--
-- The parts and how they interact. An operator's approval (src/approval.ts) is signed and bound to one
-- action. An attempt to apply (src/application-lifecycle.ts) is prepared, approved by such an approval,
-- sent while it lasts, and confirmed by a signed proof (src/submission-proof.ts); a confirmed attempt can
-- be entered in the ledger (src/action-ledger.ts). An automatic application (src/auto-apply.ts) goes
-- through gates, among them the claims of its packet, held against the operator's claim graph
-- (src/claim-graph.ts), and an approval; the decision is written to the ledger. All digests and
-- signatures are taken of one canonical text (src/hash.ts). Records of the product are versioned events
-- (src/storage/product-repositories.ts), and the tracker makes the operations on attempts on such records
-- (src/storage/application-tracker.ts); the events themselves are encrypted and chained by hashes
-- (src/storage/encrypted-event-store.ts), and signed checkpoints of the chain are pinned by a digest outside
-- the database (src/security/audit-checkpoint.ts). Candidates of a campaign are queued for review
-- (src/intelligence/campaign-policy.ts), and records of opportunities that are one are put into clusters
-- (src/discovery/dedupe.ts); clients talk to the daemon in frames (src/ipc/protocol.ts).
--
-- Files:
--   Prelude: Boolean tests, lists measured by native numbers, sorts, results of code that throws.
--   Runtime: what the code takes from JavaScript: instants, Date.parse, digests, signature checks.
--   Hash: src/hash.ts, stableStringify and the digests; Hash/Printed and
--     Hash/Canonical, what is printed and the order of fields.
--   Text: the string methods and patterns that the code uses; normalizeClaimText of src/hash.ts.
--   Types: src/types.ts and src/reversibility.ts.
--   Approval: src/approval.ts, validateApprovalReference in the stages validate_window and
--     validate_binding; Approval/Granted, its theorems.
--   Submission: src/submission-proof.ts, its data in Submission/Proof, and evaluateSubmissionProof in
--     the stages evaluate_scope, evaluate_times, evaluate_receipt and evaluate_signals; Submission/Confirmed, its theorem.
--   Lifecycle: src/application-lifecycle.ts, its data in Lifecycle/Attempt, one function per operation;
--     Steps, the operations as a step relation; Evidence and Traces, their histories; Ledger,
--     confirmationLedgerEntry; Progress, that an approved attempt can be sent.
--   Claims: src/claim-graph.ts, its data in Claims/Packet; Sound, the claims of a graph; Documents, the
--     files of a packet; Grounded, the packet.
--   ActionLedger: src/action-ledger.ts, with the file as a value; ActionLedger/Unique.
--   AutoApply: src/auto-apply.ts, decideAutoApply as the gates of one do block and record_decision;
--     Config, the configuration and its operations; Gates, Record and Switch, the theorems.
--   Frames: encodeFrame and FrameChannel of src/ipc/protocol.ts, the events of a socket as a data type;
--     Bytes, one frame; Loop and Drained, the loop of accept; Events, what all events keep;
--     Arrivals, the order of the values; Chunks, the round trip.
--   Repository: EventSourcedDomainRepository of src/storage/product-repositories.ts over an interface of
--     the event store; Encrypted, which fills it with the encrypted store; History, the history of a
--     record; Puts, reading, retrying and conflicts.
--   EncryptedStore: src/storage/encrypted-event-store.ts over a record of its tables; Read, what opens
--     and reads a store; Append, with the head that is read first and the transaction after it;
--     Snapshots; Receipts; Open, new and existing files; Chain and Intact, walks over the rows; Tamper,
--     Appended, Restored and Reopened, the theorems.
--   Checkpoints: src/security/audit-checkpoint.ts, the verification of the signed checkpoints; Rollback,
--     the digest outside the database; Covered, checkpoints and the events of the store; Create,
--     Longer and Created, createSignedCheckpoint.
--   Campaign: src/intelligence/campaign-policy.ts with what it uses of assertions.ts; Queue,
--     buildCampaignReviewQueue; Bounds, its limit and quotas; Normalized and Gated, what is queued;
--     Engine and Decided, the decisions of src/intelligence/campaign-engine.ts; Review and Reviewed, its
--     review items.
--   Patterns: the regular expressions of the discovery code.
--   Dedupe: src/discovery/dedupe.ts, its data; Normal, normalizeCandidate; Pair, evaluateDedupePair;
--     Sets, the class DisjointSet; Clusters, deduplicateCandidates; Rooted, Joined and Merged, what find,
--     union and members compute; Checked and Sound, the loop over the pairs; Grouped, the groups of the
--     ids; Linked, what decisions connect; Errors, what is thrown; Runs, Deduplicated and Total, the
--     theorems.
--   Tracker: ApplicationTracker of src/storage/application-tracker.ts, over Lifecycle and Repository;
--     Writes, its operations as steps of the stored attempt.
--   Examples: a platform to run the code on, and the theorems at concrete runs.
--
-- How state and errors are modelled. Records are immutable values: an operation returns the next one, or
-- an error of the part's own data type. An instant counts milliseconds from the earliest Date, so that
-- it is a natural number; NaN is `none`, and comparisons with it are false. A decision reads the clock
-- once. Mutations of the repository run one after the other, as its coordinator makes them. The loop of
-- accept takes fuel: the number of bytes that are buffered, of which each round takes at least four off.
-- The find of the disjoint set takes rounds: one more than there are pairs of candidates, of which each
-- makes at most one union and so lets a path grow by one. Integers stay below 2 ^ 53 where the code
-- checks that they are safe. A score is a whole number of units of 2 ^ -1074, of which every double from
-- 0 to 100 is one. A repository reads an event back from the encrypted store if JSON.parse reads its
-- payload and the new head as they were printed; that is a condition on the event.
--
-- Not modelled. JSON schemas are checked by a third-party validator, so each validation is a parameter,
-- as are the file system, Date.parse, the digest and the signature check. Texts of caught exceptions are
-- not carried: "ledger-write-failed" stands for that text with its message. Patterns that ignore case
-- know the ASCII letters. A slice of a text counts characters where JavaScript counts UTF-16 units, which
-- are the same for the timestamps that are sliced. Claims and graphs keep only the fields that the
-- checks read. AES-GCM, the key derivation and JSON.parse are parameters of the encrypted store, and SQLite
-- is the record of its tables, in which event ids and hashes are unique and a failed transaction leaves
-- nothing. Sorting of texts, normalisation and case are parameters of the campaigns, and so is the JSON of a
-- decision's inputs, which is only hashed. URLs, normalisation, case and
-- the doubles of a taxonomy's scores are parameters of the clusters. The network, the discovery of
-- opportunities, the user interfaces and the reports are left out, and of the parts that are modelled:
-- the signing of new approvals and proofs, the migration and backup of an older database file, the MACs
-- of the frames, list of the repository and create of the tracker. Encoding and decoding JSON on the
-- socket is a pair of parameters.
mod Prelude
pub mod Runtime
pub mod Hash
pub mod Text
pub mod Types
pub mod Approval
pub mod Submission
pub mod Lifecycle
pub mod Claims
pub mod ActionLedger
pub mod AutoApply
pub mod Frames
pub mod Repository
pub mod EncryptedStore
pub mod Checkpoints
pub mod Campaign
pub mod Patterns
pub mod Dedupe
pub mod Tracker
mod Examples
