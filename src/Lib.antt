-- ===== src/Lib.antt =====
-- R-Sandbox: the policy that grants authority to a proposed plan, and the verdict on its run.
--
-- R-Sandbox runs an untrusted research repository inside a container. A planner proposes an
-- execution plan whose steps carry capability requests. The policy package validates the plan,
-- binds each request to a canonical id and answers it by ALLOW, DENY or REQUIRE_APPROVAL. The
-- supervisor runs the plan and returns an execution result with runtime events. The observer
-- classifies the result, the replanner may switch the Python interpreter for one more attempt,
-- and the security assessor joins findings, decisions and events to a verdict.
--
-- Which file models which part:
--   Prelude and its children: texts as code points, results with the raised exception, floats
--     as exact binary values, integers, pure POSIX paths, lists.
--   Python: what the code takes from Python and the operating system (str.lower, urlparse,
--     float, its addition and float.hex, sha256, re.search, path resolution, ipaddress). It is a
--     record, and every theorem holds for each instance of it.
--   Models: src/r_sandbox/models.py. Enums and Records hold its types; Value is an untrusted
--     object as the validators take it apart; Canonical and Findings are
--     `canonical_execution_result` and `canonical_findings`; Canonical/Snapshot holds
--     the laws. Limits is `ResourceLimits`, Sandbox is `SandboxSpec`, Equality is `==` of the
--     records. Report is `AgentReport`, Gate the checks before it is serialized, and Payload what
--     its serialization omits.
--   Policy/Checks, Policy/Request and Policy/Plan: src/r_sandbox/policy/proposal_validation.py.
--     Their children hold the laws; Plan/Contract describes a well-formed plan without the
--     validator.
--   Policy/Identity: src/r_sandbox/policy/identity.py.
--   Policy/Config, Policy/Handlers and Policy/Engine: src/r_sandbox/policy/engine.py. The
--     children of Policy/Engine and Policy/Confinement hold the theorems about `authorize`.
--   System: the effects of a run and the services of the operating system, which is a record like
--     Python. A service may answer by all that was done before, so that the file system may change
--     under the code at any time.
--   Builder: src/r_sandbox/tools/sandbox_builder/builder.py. Checks, Grants and Output follow its
--     parts, Build composes them, and Laws holds the theorems.
--   Agent: src/r_sandbox/agent/planner.py, src/r_sandbox/agent/environment_planner.py and
--     src/r_sandbox/agent/orchestrator.py. Orchestrator/Services holds the injected components,
--     Parts the static methods, Survey the static part of a run, Round one attempt, Run the rest of
--     `_run_snapshot`, and Entry `run` with the snapshot that it opens and closes. A run is a
--     function from the effects so far to a result and the effects then.
--   Assess: src/r_sandbox/agent/security_assessor.py. Signals gathers the local variables of
--     `assess`, Assessor decides, Verdicts holds the theorems.
--   Observe: src/r_sandbox/tools/runtime_observer/observer.py, manifest.py in the same folder, and
--     src/r_sandbox/agent/reflection.py. Manifest holds the comparison and the budget, and
--     Manifest/Scan the traversal, on a tree of what the operating system answers to it.
--   Tests: runs on concrete inputs.
--
-- How the code is read. A dataclass is a record; an object that a validator receives is a Value,
-- since frozen dataclasses may hold anything. A raised exception is the error of a result, and
-- the checks come in the order of the source. Loops are structural recursion on their lists, and
-- the loop of attempts on their number, so that no fuel is used and every function is total. A
-- set is the list of its elements, since only membership and the sorted order are read. A float is
-- nan, an infinity, or a sign and a count of 2^-1074, which holds every double exactly.
--
-- Not modelled: the analyzers of source and dependencies, the copying of a snapshot (a run opens
-- and closes it by two effects), the supervisors and the audit hook, which work on syntax trees,
-- the file system, docker and interpreter hooks; the calls of the operating system below the capture
-- of a manifest; the risk reasoner, the reporter, the command line and the web interface.
pub mod Prelude
pub mod Python
pub mod Models
pub mod System
pub mod Builder
pub mod Policy
pub mod Agent
pub mod Assess
pub mod Observe
mod Tests
