-- ===== src/Lib.antt =====
-- Verification of merlya, an assistant that runs commands on hosts and changes infrastructure under
-- the control of its user.
--
-- A request goes to an agent that calls a language model; the model calls tools, which run commands
-- on hosts over a pool of SSH connections or change infrastructure through pipelines. The model is
-- an outside service. What keeps it in check is ordinary code, and that is what is modelled here:
-- the approval before changes, the confirmation before commands, the choice of the host and of the
-- user that a command runs on and as, the secrets in it, the detection of loops, the care taken with
-- the conversation and the session, and the breakers and limits between the agent and the hosts.
--
-- The parts and their files:
--   * merlya/pipelines/base.py, `AbstractPipeline`: Pipelines. A change goes through plan, diff,
--     summary, approval, apply, post check and rollback. The methods that a subclass defines are the
--     fields of the record `Pipeline`, actions on a world of the caller's choice; `execute` is
--     composed of one function per stage, in the exception and state monad of Common/Outcome.
--     Properties of whole runs are proved with the triples of Common/Outcome/Triple.
--   * merlya/provisioners/base.py, `AbstractProvisioner`: Provisioners, the same with a validation
--     before, an approval service that the context may lack, and no action where the plan is empty.
--   * merlya/provisioners/state, `StateTracker`: Provisioners/State, with the statements of its
--     repository over two tables, which are an interface (`Tables`) that State/Memory fills.
--   * merlya/core/resilience.py, `CircuitBreaker` and `retry`: Resilience/Breaker and
--     Resilience/Retry. The blocks that `call` runs under its lock are the steps of the breaker;
--     concurrent calls are interleavings of steps.
--   * merlya/ssh/circuit_breaker.py, the breaker that the pool keeps for each host: Ssh/Circuit.
--   * merlya/ssh/types.py: Ssh/Types, with the module's own breaker, the time limit of a
--     connection and the errors that are worth a retry.
--   * merlya/ssh/pool.py, `SSHPool`: Ssh/Pool. The two dictionaries of connections and breakers, and
--     the operations get_connection, execute, disconnect and reset_circuit. Opening a connection,
--     running a command on one, sleeping and the clock are the fields of `Net`.
--   * merlya/agent/history.py: Agent/History, the truncation of a conversation.
--   * merlya/agent/tracker.py, `ToolCallTracker`: Agent/Tracker, with the patterns on commands in
--     Agent/Tracker/Fingerprint.
--   * merlya/agent/confirmation.py: Agent/Confirmation, the dialogue, its memory and batches.
--   * merlya/capabilities/cache.py, `CapabilityCache`: Capabilities, a cache with times to live.
--   * merlya/agent/specialists/elevation.py and merlya/security/permissions.py: Elevation, what runs a
--     command as another user. Elevation/Shell has the quoting and the way in which a shell reads a
--     word; Elevation/Manager is `ElevationManager`, whose prefix patterns are in Elevation/Prefix.
--   * merlya/subagents/timeout.py, `ActivityTimeout`: Subagents. The task that it runs is an interface
--     (`Task`): how each wait ends, the clock, and the cancellation.
--   * merlya/hosts/target_resolver.py: Hosts, where a command runs; Hosts/Routing has the decisions of
--     the two `ssh_execute`, of merlya/tools/core/ssh.py and merlya/agent/tools/core/ssh.py.
--   * merlya/session/manager.py, `SessionManager`: Session, with the limits of
--     merlya/session/context_tier.py. The summarizer, the prediction of a tier and the database are
--     the interface `Services`.
--   * merlya/config/policies.py, `PolicyManager`: Policies, over the tiers of Session.
--   * merlya/tools/core/resolve.py: References, the references to secrets in a command and the command
--     that the log shows.
--   * merlya/tools/system/validation.py: Validation, the checks of arguments.
--   * merlya/templates/models.py and instantiation.py: Templates, with the validation of a template's
--     variables in Templates/Validation and its rendering in Templates/Rendering.
--   * merlya/pipelines/bash.py, `BashPipeline`: Pipelines/Bash, an instance of Pipelines; Stages has
--     apply, rollback and post check, over a shell that is a parameter.
--   * merlya/agent/orchestrator: Delegation, the specialist runner with its retries; Delegation/Targets
--     has the targets and the delegating tools, Completion and Sanitization the tests on texts. It uses
--     the tracker of Agent/Tracker.
--   * merlya/tools/logs/store.py: Logs, the stored outputs and their slices.
--   * merlya/subagents/orchestrator.py and results.py: Subagents/Orchestrator and Subagents/Results, a
--     task on many hosts and what is reported of it.
--   * merlya/core/metrics.py: Metrics, the counters, the histograms and what the program tracks.
--   * merlya/secrets/session.py, `SessionPasswordStore`: Secrets, the passwords of a session.
--   * Common has what they share: tests and lists over the native numbers, outcomes, times, values,
--     dictionaries and sets of texts, and texts as lists of code points.
-- The Examples file of each part has runs of the code and instances of the theorems.
--
-- Conventions. Python's int is ℕ where the code only counts; times are naturals in one unit. A
-- `str` is a `String` where it is only compared or shown, and a list of code points where its
-- characters are looked at; case and white space are then those of ASCII. An exception is the
-- outcome `raised` with its text, and `asyncio.CancelledError`, which `except Exception` lets pass,
-- is `cancelled`. Logging is left out.
--
-- Loops. The attempts of `retry`, of the pool's `execute` and of a delegation recur on those left,
-- which start at the limit of the code, so no bound is added. The dialogue recurs on the answers
-- that the user gives before the prompt raises; the search in the history recurs on the index it
-- counts down. The loop of the activity timeout is given its longest time over two seconds and one
-- more waits, which is enough where each wait lasts its time; the options in the prefix of a command
-- are looked for as often as the text has characters, each of them taking one at least.
--
-- Not modelled: the language model and the tools that wrap commands, the other concrete pipelines and
-- the provisioners, the parsing and routing of requests, authentication and terminals, persistence,
-- configuration files, the keyring, the user interface and the commands of the REPL. Of the modelled
-- files, what only displays or counts for display is left out, as each file says.
mod Common
pub mod Pipelines
pub mod Resilience
pub mod Ssh
pub mod Subagents
pub mod Hosts
pub mod Session
pub mod Agent
pub mod Provisioners
pub mod Capabilities
pub mod Secrets
pub mod References
pub mod Templates
pub mod Validation
pub mod Policies
pub mod Delegation
pub mod Elevation
pub mod Logs
pub mod Metrics
