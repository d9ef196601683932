-- ===== src/Lib.antt =====
-- A model of the deterministic long-horizon incident environment, and the theorems that make it
-- correct: an event service whose state is kept in SQLite, an agent that repairs it through tools,
-- the record of the episode, and the verifier that grades it.
--
-- The parts and the files:
--
-- Substrate: src/event_service_substrate. Tables has a record for each row of the schema in
-- store.py; Canonical what is serialised (canonical.py), Clock the clock (clock.py), Authority the
-- HMAC capability (authority.py). Store is `StateStore` of store.py up to `pause_intake`: a record
-- of the tables, and one function for each method. Recovery is `restore_snapshot`,
-- `recovery_is_valid` and `recovery_provenance_exists`, and the queries of
-- src/strict_verifier/integrity.py. The transaction of `restore_snapshot` is a function of the last
-- commit, which a raise in its body brings back; the key of a recovery proof is tested in it.
-- Agent: src/agent_surface. Runtime, Methods and Intents are `RuntimeStore` of runtime.py: a run
-- holds the store and the counters of one workload, and each method is a computation that may
-- raise, with its writes to the clock, the tables, the trace spans and the telemetry. A raise
-- keeps what was written before it. Flow is the service's stages: the template of
-- src/event_service_substrate/public_template/service and the flows of
-- src/training_ground/policies.py. Engine is `_accept_command` and `_deliver_event`.
-- Workloads is `_run_public_workload` of runtime.py with the verdict on what has become durable;
-- Probes is `_run_hidden_workload` and `_run_cutpoint_diagnostic`, and Runs is `run` with the
-- capability that it issues.
-- Session and Tools are src/agent_surface/session.py: the session with its workspaces, releases,
-- receipts and passes, and the tools that change it. What a run of the engine does to the store is
-- a parameter there, since it runs the code of the candidate workspace; Tools/Served puts the engine
-- of Runs there, for workspaces that hold a flow of the repository.
-- Trace is `TraceCapabilityAuthority` (trace.py): tokens that are issued for a run and validated for
-- a session, an epoch, a view and a selector. Inspect is the reading tools of session.py.
-- Gateway is `_Controller` of gateway.py and Gateway/Client its `ToolClient`: a line for each request
-- and each response. Fixture is src/event_service_substrate/instance.py: the seeded incident, built with the store and
-- the workspace of a session, its recovery point, and what the public may see of it.
-- Ground: src/training_ground. Transcript is the record of an episode, `add_step` and `to_list`, and
-- `verify_transcript` (transcripts.py). Limits is `Limits.check` (limits.py), Actions the check of
-- an action (actions.py). Client is the tool call of a step and Episode is `IncidentEnv`
-- (episode.py): a record of the environment's fields, with `step`, `reset`, `grade` and `close`.
-- The process behind the gateway is a parameter with a state of its own. Manifests is manifests.py
-- and authority.py, and Loader is loader.py with the constructor of the environment.
-- Evaluation: src/evaluation_service. Runner is `EpisodeRunner` of runner.py, the loop in which a
-- model acts in an episode, and Cycle its guard against repetition. The model, the environment and
-- the clock are a parameter with a state.
-- Verifier: src/strict_verifier. Reward is `calculate_reward` (reward.py), in hundredths. Workloads
-- and Workspaces are workloads.py and reconstruct.py. Checks, Replay and Grade are `Verifier.grade`
-- (verifier.py): the predicates that need no store, those from the store and the workloads, and
-- their composition with its early ends. What the verifier reads is the record `Materials`.
-- Prelude: Boolean tests, lists, dicts, results and the monad of methods.
-- Examples: codecs that stand for JSON, hash functions without collisions, and the theorems at
-- concrete inputs.
--
-- The engine runs the stages against the store; a snapshot covers the service tables that they
-- write; a restoration adds an audit entry and a proof, which the verifier looks for; the grade is
-- made of such checks and of the transcript's. The environment records its steps, and hands the
-- finished transcript, its limits and the disk to the verifier.
--
-- Parameters: SHA-256, HMAC-SHA-256, the JSON encoder and decoder, and the ORDER BY of SQLite are
-- fields of a record. Where a theorem needs them to be without collisions, or to read back what
-- they wrote, that is a hypothesis with an instance in Examples.
--
-- Bounds: numbers are natural, as Python's are unbounded. The delivery loop runs on fuel: twice the
-- attempt budget and two more rounds are enough, since each round either counts an attempt or takes
-- the one pending cutpoint, which alone resets the count. The loop of an evaluated episode has a
-- round for each model call it may make, and one more to find the limit reached.
--
-- Not modelled: the HTTP service, the store and the scheduler of the evaluation, the launch of the
-- gateway's process, the model runners, the adapters, the dashboard and the scripts, which are
-- input and output around this core; the file system below a workspace; `workspace.read`. A
-- session restores over the store as it stands: what a raised run has written without a commit is
-- kept even if a later restoration raises in its transaction, which in the source undoes both.
pub mod Prelude
pub mod Substrate
pub mod Ground
pub mod Verifier
pub mod Agent
pub mod Evaluation
pub mod Examples
