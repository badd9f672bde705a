-- ===== src/Lib.antt =====
-- A verification library for ReproCut, which reduces a project that fails to a small project that
-- still fails in the same way. The code is the Rust workspace under crates/.
--
-- The parts and how they interact. The engine (crates/reprocut-engine) copies a project, runs a
-- failure command on candidates of it (crates/reprocut-runner), and asks the core
-- (crates/reprocut-core) which candidate to try next. One candidate is run several times; the
-- evaluation policy makes one verdict of the runs. The reducer proposes frontiers of candidates and
-- commits to the earliest preserved one. The scheduler evaluates a frontier on several threads, and
-- the winner slot keeps the lowest rank that any thread has found preserved. A structured candidate
-- changes the project by a transformation, a canonical set of operations on files, which is applied
-- to an immutable snapshot of the project.
--
-- Which file models what:
--   Prelude       shared names, lists, tests, words, faults, thread families, orders and sorting
--   Model         the verdicts, modes and channels of crates/reprocut-core/src/model.rs
--   Observation   crates/reprocut-core/src/model.rs; `new_observation` and `new_contained` are the
--                 constructors of `ExecutionObservation`
--   Diagnostic    crates/reprocut-core/src/diagnostic.rs; Normalize has `normalize_diagnostic` and its
--                 replacements, Slices the same with the panics of its slices, Lines the eligible
--                 lines, Select the choice of anchors, Stable `stable_discriminators`; the patterns
--                 stand in Constants
--   Policy        crates/reprocut-core/src/policy.rs; `validated_flaky` is `EvaluationPolicy::flaky`,
--                 `aggregate` is `EvaluationPolicy::aggregate`, `record_verdict` and
--                 `terminal_decision` are the methods of `AggregateEvidence`
--   Reducer       crates/reprocut-core/src/reducer.rs; the frontier and the candidate buffers stand in
--                 Reducer, the three phases (`run_groups`, `ddmin`, `sweep`) in Reducer/Search
--   Winner        crates/reprocut-core/src/winner.rs; a call of `claim` as steps of single atomic
--                 accesses
--   Scheduler     crates/reprocut-engine/src/scheduler.rs; the threads of `FrontierScheduler::evaluate`
--                 as a step relation in Scheduler/Worker, what surrounds them in Scheduler/Outcome
--                 and Scheduler/Plans
--   Transformation
--                 crates/reprocut-core/src/transformation.rs; `project_path` and `byte_range` are the
--                 two constructors `new`, `new_transformation` is `Transformation::new`
--   Snapshot      crates/reprocut-workspace/src/lib.rs; `with_transformation` applies a transformation to
--                 a `ProjectSnapshot`, `apply_replacements_to_bytes` changes one file, and `file_index`
--                 looks a path up by the binary search of the standard library
--   Oracle        crates/reprocut-core/src/oracle.rs; `new_spec` is `OracleSpec::new` and `spec_digest` has
--                 the bytes of a specification's identity; Baselines has
--                 `FailureOracle::from_spec_and_baselines`, Classify `FailureOracle::classify`, and
--                 Fingerprint `FailureFingerprint` of crates/reprocut-core/src/model.rs
--   Protocol      crates/reprocut-core/src/protocol.rs; `validate` is `ReductionRequestV1::validate`
--   Hierarchy     crates/reprocut-workspace/src/hierarchy.rs; `from_units` is
--                 `DirectoryHierarchy::from_units`, whose groups the reducer takes
-- A file Tests below a part runs its definitions on small inputs.
--
-- How the code is translated. A closure with mutable captures is a function of its state, which it
-- returns changed. Code that can panic returns an `Outcome`; a debug assertion that fails counts as
-- a panic. `usize` has 64 bits, u16 sums wrap around, and saturating sums saturate. Threads share a
-- record; an atomic load may return any value that the slot has had since, which for the winner slot
-- is some value at least the present one. The verdict on a plan of the scheduler is a function of
-- its payload. A text is the list of its code points, and a position in it counts characters where
-- the code counts bytes; an i32 is its bit pattern. Of the standard library, sorting, the removal of
-- duplicates, the binary search and `str::as_bytes` are written out. The regular-expression library
-- is a parameter; that its matches stand one behind the other within the text is a hypothesis where
-- it is needed, and the oracle uses the normalisation whose slices stop at the end of the text.
--
-- Fuel. A chunk of a frontier takes at least one position, so `chunks` has as much fuel as there are
-- positions. A round of ddmin makes the active list shorter or doubles the granularity below its
-- length, so n * n + n + 1 rounds are enough for n units. The sweep makes the list shorter or
-- advances, so it has the length as fuel. A transformation is applied in at most as many groups as
-- it has operations. The binary search halves a part of the files, so their number is enough.
-- Each bound is proved with the part that it belongs to.
--
-- Not modelled: the floating-point statistics of a policy; the digest, the regular expressions, the
-- Unicode tables and the decoder of UTF-8, which are parameters; file system and process work
-- (runner, workspace copies, containers), the command line, the Python bindings, the SQLite state,
-- the parsers of manifests and of syntax trees, and the reports.
pub mod Prelude
pub mod Model
pub mod Observation
pub mod Diagnostic
pub mod Oracle
pub mod Policy
pub mod Reducer
pub mod Winner
pub mod Scheduler
pub mod Transformation
pub mod Snapshot
pub mod Protocol
pub mod Hierarchy
