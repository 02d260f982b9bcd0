-- ===== src/Lib.antt =====
-- FGVC platform: a model of the control plane's core logic (Go) with the theorems about it.
--
-- The control plane trains and publishes fine-grained image classifiers. A training job is an
-- aggregate (job, run, attempts, audit events, outbox, artifacts, metrics); every call of the
-- lifecycle loads the aggregate, edits a copy in a closure and stores the copy unless the closure
-- returns an error. Queued jobs announce themselves by ready events in the outbox, which a relay
-- publishes under short locks; workers claim jobs, hold leases and are fenced by epochs.
--
-- Files and the code that each models:
--   Base           what the other modules share: numbers, tests, lists, texts, association lists.
--   Artifact       go/internal/artifact: Descriptor (store.go), CanDeletePhysicalObject (gc.go);
--                    proofs in Deletion
--   Training       go/internal/training/lifecycle.go, the whole file:
--     Types          its data and error codes
--     Claims         Claim, Heartbeat, currentAttempt
--     Metrics        Progress, validateMetricPoint, containsMetricPoint
--     Control        Pause, Cancel, transitionControl (with and without a key), Resume
--     Completion     Complete, validateDescriptor
--     Failure        Fail, and one round of ReapExpired
--     Repository     MemoryRepository: Create, Get, Update, Expired
--     Service        Create, CancelOperation, Complete with its verifier, ReapExpired
--     Steps          one call on one job as a step, and sequences of calls
--     the others     proofs: Cases and Ownership for all of them, then Invariant, Fencing, Replay,
--                    Graph, Terminal, Dispatch, Leases, Recovery, Budget, Storage,
--                    Creation
--     Examples, StoredExamples   runs on which the theorems apply
--   Outbox         go/internal/outbox/relay.go: RunBatch over the interface Store, MemoryStore:
--                    Claim, MarkPublished, MarkFailed; Calls: sequences of calls; proofs
--                    in Locks, Exclusion and Batch
--   Models         go/internal/modelregistry/registry.go: MemoryRepository (List, Get, Transition,
--                    SetAlias); Service: Promote, Archive, SetAlias; Comparison: Compare;
--                    Publication: PublishPrecision (publication.go); Releases: LatestRelease
--                    (releases.go); proofs in AliasKeys,
--                    Aliases, Assignment, Listing, Stages, Comparable, Published
--   Deployment     go/internal/deployment/deployment.go: Validate, PortableVariants, Resolve; proofs
--                    in Resolution
--   Operations     go/internal/agenttools/operations.go: Outcome, Begin, Finish, Get; proofs in
--                    Idempotency
--   Workers        go/internal/workers/workers.go: Validate, Derive; proofs in Derived.
--                    Sessions: Report on its two tables, and sequences of reports;
--                    proofs in Superseded
--   Dataset        go/internal/dataset: the limits, paths and images (service.go, merge.go).
--     Merge          merge.go: write, the samples of the base; Additions: uploads, feedback and the
--                    whole of merge; proofs in Growth, Kept, Placed, Repeats, Preserved,
--                    Limits
--     Samples        what an archive should hold of a manifest's samples, for the proofs
--     Split          annotation_build.go: SplitPlan.Validate, SplitLabels; proofs in Shares
--     Build          annotation_build.go: BuildLabeledArchive, the base; Additions: the new images
--                    and the whole; proofs in Held, Placed, Gathered, Added, Extended
--   Annotation     go/internal/annotation: Project.Validate (annotation.go)
--     Repository     Create, Add, Queue, Confirm, Claim, Finish, MemoryNext, MemoryAck on the
--                    tables (annotation.go), QueueAll (catalog.go)
--     Calls          sequences of calls
--     the others     proofs: Tables, Statuses, Moves, Lifecycle, Repeats, Accepted
--   Runs           agent/internal/storage/store.go: the runs of the assistant, with their types
--     Submission     Submit
--     Workers        Claim, Heartbeat, Save
--     Control        Cancel, Confirm, Resume
--     Calls          sequences of calls
--     the others     proofs: Counting, Moves, Lifecycle, Steps, Fencing, Submitted,
--                    Confirmed
--   Auth           go/internal/auth: the tables and errors (core.go, postgres.go)
--     Passwords      ValidatePassword, HashPassword, VerifyPassword; with its round trip
--     Accounts       the methods of PostgresStore, but ListUsers
--     Service        NormalizeEmail, Register, Login, Session, Logout
--     Access         http.go: isPublic, isServicePath, allowed, Protect; agent_tools.go
--     Delegation     agent/api/delegation: Sign, Verify; agent_delegation.go
--     Calls          sequences of calls
--     the others     proofs: Emails, Admins, Entries, Lockout, Revoked, Guarded, Roles, Granted
--   Review         go/internal/review/review.go: Submission.Validate; proofs in Routes
--   Paging         go/internal/httpapi/pagination.go and the window of ListPage; proofs in Pages
--   The modules Examples, StoredExamples and AccessExamples hold runs on which the theorems apply.
--
-- Choices. A time is a number of nanoseconds since Go's zero time, so `IsZero` is `== 0`; a lease or
-- a delay is added without overflow. An int64 counter that the code increments and compares for
-- equality (ExecutionEpoch, DispatchGeneration) is its 64-bit pattern, with the wrap-around written
-- out; AttemptCount is guarded by MaxAttempts. A float64 is its IEEE-754 pattern. A map is an
-- association list; ranging over a map, whose order Go leaves open, goes in the list's order. Ids
-- drawn by newID are arguments (`Env.new_id`); url.Parse, uuid.Parse, SHA-256, JSON encoding, the
-- verifier, the exporter and the publisher are arguments too. An error is a constructor with its
-- message. A text is valid UTF-8, and `len` counts its bytes.
-- cloneAggregate and cloneMap copy, which is the identity on values. Mutexes and transactions make
-- each call atomic, so concurrent calls are sequences of steps; Login, which is several statements,
-- is one step too. A table is an association list by its primary key. Every loop of the code is
-- structural recursion; only the printing of a number in decimal goes on fuel, one more than the
-- number, and each round divides it by ten.
--
-- Not modelled: the other PostgreSQL repositories, HTTP handlers, message brokers, object stores, the
-- observability console, the LLM gateway, and the Python and TypeScript parts, which are input and
-- output around these rules; and, of the parts above, the reads that are single queries.
pub mod Base
pub mod Annotation
pub mod Artifact
pub mod Auth
pub mod Dataset
pub mod Deployment
pub mod Models
pub mod Operations
pub mod Outbox
pub mod Paging
pub mod Review
pub mod Runs
pub mod Training
pub mod Workers
