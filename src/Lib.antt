-- ===== src/Lib.antt =====
-- Delta (delta/, a Python package) hands finished work from one agent to another. A workflow is a
-- set of steps, each bound to workflow inputs and to the outputs of other steps. When a second
-- agent takes a workflow over, `HandoffGate` looks at the work that was stored and decides, step by
-- step, whether it is inherited, run again, withheld or left waiting; what it approves becomes the
-- context of the receiving agent, and a receipt says what became of every step. The planner of
-- delta/core.py makes the same kind of preview for a revision in one project, and a spend approval
-- bounds the paid actions of such a plan. `DeltaEngine` runs the steps of a revision, one after the
-- other, and writes results, attempts and events through `SibylStore`, which the gate and the
-- planner read.
--
-- Core stands for delta/core.py. Core/Value and Core/Platform have `normalize_json`,
-- `canonical_json`, `_signature` and `output_signature`; Core/Schema, Core/Quote, Core/Work and
-- Core/Attempt the records from `Scope` to `ExecutionEvent`, each with the checks of its
-- `__post_init__` as a function `check_`; `WorkflowInputRef` and `StepOutputRef` are the values
-- that `workflow_input` and `step_output` return after their check, and a binding may hold such a
-- value of any text; Core/Workflow `extract_dependencies`, `topological_order`,
-- `validate_workflow`, `resolve_step_input` and `input_signature`; Core/Inputs `validate_inputs`;
-- Core/Plan `build_revision_plan`; Core/Approval `SpendApproval` and `validate_spend_approval`.
--
-- Handoff stands for delta/handoff.py. Handoff/Policy, Handoff/Verdict, Handoff/Decision,
-- Handoff/Context and Handoff/Receipt have its records, with their checks and their payloads.
-- Handoff/Discovery has `_load_candidates`, `_load_corrupt` and `_latest_for_step`; Handoff/Judge
-- the four verdict functions and `_decide`; Handoff/Candidate `_evaluate_candidate`,
-- `_pending_candidate` and `_undecodable_candidate`; Handoff/Gate `HandoffGate.evaluate` with
-- `_build_approved_context`, `_build_receipt` and `_handoff_id`. Handoff/Inheritance states, in
-- terms of its own, when work may be inherited, and Handoff/Gate/Owed what context the gate owes.
-- The other modules below these two hold lemmas and theorems.
--
-- Store stands for delta/store.py. Store/Client is the client of the sibyl_memory package;
-- Store/Fields and Store/Payload say how fields are read and what each record is written as;
-- Store/Decode has the `_from_payload` functions and the constructor calls of the readers;
-- Store/Entities `__init__`, `_key`, `_save_entity`, `_assert_scope` and `_check_payload_scope`;
-- Store/Work and Store/Listing the methods for work results, and Store/Attempts those for attempts,
-- active attempts, events and `save_plan`; Store/Plans and Store/Attempts have `get_plan`;
-- Store/Bodies `_reject_untrusted_bodies`; Store/Handoffs `save_handoff_record`,
-- `save_reuse_receipt` and `HandoffGate.persist`; Store/Rebuild and Store/Reread `_decode_decision`
-- and `_decode_receipt_entry` of delta/handoff.py; Store/Scopes and Store/Sweep
-- `delete_scope_records`, `reset_active_heads` and the methods for agent sessions, agent runs and
-- demo markers. A session or a run of an agent is its scope, identifier and payload.
--
-- Engine stands for delta/execute.py. Engine/World is the state; Engine/Ownership has
-- `_active_attempt` and `_start_attempt`; Engine/Perform the `try` statement around an executor;
-- Engine/Run `preview`, the body of the loop and `execute`; Engine/Cost `_cost_summary`.
--
-- Artifacts stands for delta/artifacts.py: `write_generated`, `resolve_local` and, in
-- Artifacts/Remote, `resolve_remote` with `_validate_remote_url`. The file system and the functions
-- of `pathlib`, `hashlib` and `urllib` are the record `Files`; a URL comes as `urlparse` gives it,
-- and `_fetch_https` is a call that ends in bytes or in an exception.
--
-- Common has the shared types and lemmas, and Samples a small handoff and its runs with the tests.
--
-- How the code is written down. An exception is an `err` with a constructor for its class and its
-- message, and a body that may raise is a do block of `Result`; a class that checks its fields is a
-- record and the function that builds it. A test by `isinstance` against the declared class of a
-- field is the field's type. A dict with string keys is an association list in the order of
-- insertion; the dict of the gate's candidates has pairs as keys, and the dict of counts is a
-- record, since its keys are always the same four. A moment is a number of microseconds since the
-- year 1, a finite float is the text that `repr` gives it, and a value of a class that is not JSON
-- is named by its class. `now`, where the caller leaves it out, is a time that the clock gave, an
-- argument.
--
-- Python's standard library is the record `Platform`: `json.dumps`, `hashlib`, `isoformat`, `str`,
-- `repr` and `decimal`. Of its laws, theorems assume only that `fromisoformat` reads what
-- `isoformat` wrote, where they say so; that the digests tell different payloads apart is not
-- claimed. `str.strip` is modelled in Common/Text. What a store answers to the gate is the record
-- `CandidateStore`; each of its two methods may raise.
--
-- The store and the engine are written in `Action`: a body takes the state and returns a `Result`
-- with the state after it, so what was written before an exception stays written. The memory client
-- is a parameter, `MemoryClient`; theorems on what is read back assume `IsStorage`, which says that
-- entities and states are read as they were written, that neither an event nor a state overwrites
-- an entity, and that reading a state leaves the entities alone. `uuid4` and the clock are
-- functions of how often they were called, as an executor's answer is of how many calls came before
-- it. A field that a class does not check (`uri`, `successful_attempt_id`, `provider_job_id`,
-- `error_code`, every field of the evidence of a stored decision or receipt entry, and the
-- `input_signature` of a stored decision) and that is stored with another type than the declared
-- one is an error here, where Python keeps it; a corrupt record keeps such a field only where it is
-- a text. A time to live is the number of microseconds to which `timedelta` rounds it.
--
-- Two loops are not structural. The `while` of `topological_order` runs on as much fuel as there
-- are steps, and every round takes at least one step away, so the fuel never runs out. The `while`
-- of `_reject_untrusted_bodies` runs on the number of values in the items: each round takes one
-- value off the stack, so the fuel never runs out there either.
--
-- Not modelled: in delta/store.py artifact references and the reading of handoff records and
-- receipts; the lock of delta/execute.py, since calls are made one after another; the paid jobs of
-- delta/providers/acp.py; and the agents, sessions, scenarios, the web application and the scripts
-- around them.
pub mod Common
pub mod Core
pub mod Handoff
pub mod Store
pub mod Engine
pub mod Artifacts
mod Samples
