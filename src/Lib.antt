-- ===== src/Lib.antt =====
-- A verification library for the Agent Engineering Standard: the execution queue that every
-- session reads its next work item from, as tools/queue_core.py, tools/queue_store.py and
-- tools/work_queue.py keep it, the one-writer lease of tools/writer_lease.py, the guard of
-- external effects of tools/idempotent_effects.py, the failure triage of tools/recovery_loop.py,
-- and the decisions of tools/safe_parallelism.py, tools/context_rotation.py,
-- tools/deny_guards.py, tools/control_plane.py, tools/replay_wake.py and
-- tools/autonomous_orchestrator.py.
--
-- Parts. tools/queue_core.py has the rules: it takes a state and gives back a new state and
-- unsealed events, or refuses. `seal` numbers the events, chains them by hash and points the
-- state at the last one. tools/queue_store.py keeps the state and the event log: `commit` loads,
-- changes, seals, checks, appends the events and then swaps the state in, if nobody else has.
-- tools/work_queue.py dispatches commands to the rules. tools/writer_lease.py decides operations
-- on the lease that a session holds before it writes, and tools/idempotent_effects.py decides
-- whether an attempt at an external effect runs; they keep no state, and their corpus checks run
-- them on fixtures. tools/recovery_loop.py gives a failure report its class and route. The other
-- six decide whether slices run in parallel, whether a session rotates or resumes, whether a
-- guard chain allows an action, whether auto-merge is armed and what an orchestrator does next;
-- each of their rules has one verdict.
--
-- Files. Base: shared names; texts are lists of code points, with `strip`, substring search and
-- the classes of the regular expressions written out. Queue.Types: items, state, events, one
-- error constructor for each `raise`. Queue.Ids: item ids, with a proof in Queue.Ids.Bounds.
-- Queue.Fields: checks of supplied text. Queue.Query: the read-only queries. Queue.Validate:
-- `validate`. Queue.Edit, Queue.Transition, Queue.Move: the operations, with `op_` taken off
-- their names (`op_transition` is also split by its action). Queue.Secrets: the credential
-- patterns. Queue.History: `seal`, `chain` and `handoff_text`. Queue.Guard: the guards of claims
-- and pull requests, with proofs in its children. Queue.Request: the writing commands of
-- tools/work_queue.py. Store.Memory: `MemoryAdapter`. Legacy.Items, Legacy.Body, Legacy.Mutate:
-- the version 1 queue of tools/work_queue.py, with proofs in Legacy.Kept, Legacy.Order,
-- Legacy.Read and Legacy.Runs. Store.Commit: `commit`, with the part before its writes apart, so
-- that other writers can run between its steps. Policy: the label rule of the merge policy in
-- tools/standardctl.py. Queue.Inversion, Queue.Start, Queue.Cap, Queue.Keeps, Queue.Valid,
-- Queue.Sealable, Queue.Reach, Queue.Drain, Queue.History.Links, Queue.History.Sealed,
-- Store.Atomic and Store.Refines hold proofs. Plain: plain data as `json.loads` makes it, with
-- the reads that the code makes of it. Plain.Findings: the five-key findings and
-- `validate_finding`. Plain.Corpus: the corpus check, which several tools share but for names;
-- Plain.Corpus.Clear and Plain.Corpus.Frozen hold proofs on it. Lease.Types, Lease.Messages,
-- Lease.Decide, Lease.Corpus: tools/writer_lease.py; Lease.Granted and Lease.Reported hold
-- proofs. Effects.Types, Effects.Decide, Effects.Corpus: tools/idempotent_effects.py;
-- Effects.Executed, Effects.Reported and Plain.Sound hold proofs. Recovery.Types,
-- Recovery.Triage, Recovery.Corpus: tools/recovery_loop.py; Recovery.Clean, Recovery.Routed and
-- Recovery.Recorded hold proofs. Ruled: what tools/safe_parallelism.py,
-- tools/context_rotation.py, tools/deny_guards.py, tools/control_plane.py, tools/replay_wake.py
-- and tools/autonomous_orchestrator.py share but for names, with the corpus check in
-- Ruled.Corpus and proofs in Ruled.Recorded. SafeParallelism, ContextRotation, DenyGuards,
-- ControlPlane, ReplayWake, Orchestrator: the Types and Decide of each tool; their other
-- children hold proofs. Tests: runs, and each theorem at concrete data.
--
-- Correspondence. A dictionary with a fixed key set is a record; what the code tests about JSON
-- types and key sets holds by the type of the record. A log entry without the shape of an event
-- is `junk`. `copy.deepcopy` is the identity. Numbers that the code requires to be positive are
-- natural.
--
-- Parameters. `Queue.History.Codec` stands for what the code takes from the `json` and `hashlib`
-- modules: the canonical JSON of an event, sha256, and the size of a state in bytes. Theorems on
-- the history assume of them that a digest is 64 hexadecimal digits, and that the well-formed
-- events of the log at hand do not collide. `Plain.Python` stands for `repr`, `int` of a text,
-- the decimals of the class `\d`, `json.dumps` and sha256, and `lower` in Queue.Guard for
-- `str.lower`; nothing is assumed of them. `Legacy.Body.Json` stands for `json.dumps` and
-- `json.loads` of a version 1 state; that `loads` reads back what `dumps` printed, that it
-- printed an object, and that no line of it is a closing fence is `IsJson`.
--
-- Bounds. `chain` recurs on the number of the event that it expects, which falls by one for each
-- event; `decimal` has fuel n + 1 for a number n, and each step divides by ten.
--
-- Plain data. A dictionary is a list of keys and values of which the first of a key is read;
-- numbers with a fraction are left out. A call of `int` that raises is a value of `Raised`. The
-- repairs of `validate_finding` and the findings of a corpus check are constructors instead of
-- texts.
--
-- Not modelled. The git-file and GitHub backends and the command-line parser are I/O. Rendering
-- a version 2 queue to Markdown, `closing_refs`, the migration of version 1 queues to version 2,
-- tools/standardctl.py but for the label rule of its merge policy, and the other deciding tools
-- of tools/ are left out.
pub mod Base
pub mod Plain
pub mod Lease
pub mod Effects
pub mod Recovery
pub mod Queue
pub mod Store
pub mod Ruled
pub mod SafeParallelism
pub mod ContextRotation
pub mod DenyGuards
pub mod ControlPlane
pub mod ReplayWake
pub mod Orchestrator
pub mod Legacy
pub mod Policy
mod Tests
