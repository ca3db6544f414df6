-- ===== src/Lib.antt =====
-- AI Company OS: the control core of a company of software Agents
--
-- The program lets Agents use Skills and Tools, run Tasks through workflows and keep Schedules,
-- under gates that a Human Root controls. `build_company_os` (backend/app/bootstrap.py) loads the
-- catalogs of Agents, Skills, Tools and workflows and checks their references.
-- `CompanyApplicationService` (backend/app/services/company.py) holds the state and has the
-- methods that the HTTP interface calls. A request for a Tool run goes through the risk engine and
-- the permission engine; it is blocked, executed, or filed with the approval center, and a run
-- that was approved is checked again before it is executed. Calls of a model are checked against a
-- budget, and go through a gateway that tries one provider after another. A bounded agent works on
-- the repository by decisions that a model writes as JSON; each stands for a Tool request. Every
-- method leaves audit events, and blocked runs, blocked calls and failed schedules leave incidents,
-- which may be sent out as alerts.
--
-- The files and what they model:
--   Base            helpers: tests, lists, Python dictionaries in insertion order (Base/Dict),
--                   exceptions as values (Base/Raise), doubles (Base/Float), `str.strip`, `str` of a number (Base/Text)
--   Core            backend/app/core: the enumerations and the values of their members, the
--                   dataclasses (Core/Models), JSON payloads (Core/Json), instants (Core/Time)
--   Safety          backend/app/safety/risk.py (`RiskEngine.assess`: Safety/Risk) and
--                   backend/app/permissions/engine.py (`PermissionEngine.evaluate`:
--                   Safety/Permissions); their constants are in Safety/Policy
--   Approvals       backend/app/approvals/service.py (`ApprovalCenter`)
--   Catalog         the registries backend/app/agents/registry.py, skills/registry.py,
--                   tools/registry.py and workflows/registry.py, with every entry that is shipped
--   Bootstrap       the catalogs of `build_company_os` and `_validate_catalog_references`
--   Budget          backend/app/budget/guard.py (`BudgetGuard`): the check of a call, the limit on
--                   its output, the cost log, and the update of the policy (Budget/Update)
--   Gateway         backend/app/models/gateway.py (`ModelGateway`) with the local provider of
--                   models/providers.py: the route of a call (Gateway/Route) and its attempts
--                   (Gateway/Attempts)
--   Auth            backend/app/auth: passwords.py (Auth/Hex, Auth/Passwords) and service.py
--                   (Auth/Sessions); the promise of the sessions is the ledger of
--                   Auth/Sessions/Ledger
--   Chat            backend/app/chat/agent_loop.py (Chat/Decisions) and
--                   `_agent_decision_tool_input` of services/company.py (Chat/Decisions/Tools)
--   Service         backend/app/services/company.py: the state and what the methods are given
--                   (Service/State), methods as state and exception passing (Service/Actions),
--                   audit events, incidents and domain events (Service/Records), alerts
--                   (Service/Alerts, from backend/app/observability/alerts.py), the life of an
--                   incident (Service/Incidents, with backend/app/incidents/store.py), the Tool
--                   requests and runs (Service/ToolApproval, Service/ToolRuns), the Skill runs
--                   (Service/SkillRuns, with the input check of backend/app/skills/runtime.py), the
--                   calls of a model (Service/Models, with `generate` and `record_usage` of the
--                   gateway), the schedules (Service/Schedules, with
--                   backend/app/scheduler/store.py), the registrations of Agents, Skills and Tools
--                   (Service/Registration), the indexing of knowledge by `sync`
--                   (Service/Embeddings), the budget policy (Service/BudgetPolicy), and the
--                   requests for an action with their decisions (Service/ActionRequests)
-- Functions keep their Python names; a method that is long is cut into functions in its own order,
-- each with a comment that says which part it is.
--
-- State and errors: a method is a function from the state to a result or an error and the state
-- that it leaves, since what was written before a raise stays written. A mutation of an object that
-- lies in a store is a write of its new value under its key. An error carries the class and the
-- message of the exception, and the texts that an f-string puts in. Methods give back the record
-- that their response shows.
--
-- Numbers: Python's integers are unbounded, and so are the natural numbers here; limits and
-- intervals below zero behave as zero does and are left out, except in the input of a budget
-- policy, whose numbers are integers. Instants are microseconds since year 1, and the addition of
-- an interval raises beyond 9999-12-31, as `datetime` does. Scores, which are floats that nothing
-- computes with, are counted in ten-thousandths. Amounts of money and rates per token are kept
-- in whole billionths, the unit that the program rounds to, and stand for the doubles nearest to
-- them. The budget guard computes in those doubles (Base/Float: 53 bits, rounded half to even;
-- `sum` of floats gives the nearest double to the sum). The gateway's price of a generation and the
-- cost of an embedding are products that the program rounds to billionths, and are taken exactly. No
-- recursion needs fuel but that of `show`, whose digits are fewer than the number plus two.
--
-- Given from outside, as fields of `Env`: the clock, the identifiers, the hash, the JSON printer,
-- `isoformat` and its inverse, the text of an exception, the adapters of Skills and Tools with what
-- they write, the preview of a patch, the embedding of a document with its storing, and the
-- transport of alerts. As arguments: `str.lower`, `str.upper`, `json.loads`, PBKDF2 and `int` of a
-- text, the salts and tokens that are drawn, and the model providers, whose answers may depend on
-- the moment of the call. `run_task` is an argument too: the document workflow is not modelled, and
-- the theorems on schedules that need it ask that it leaves the schedules as they are. That a method
-- reaches no adapter is said by exchanging the adapter: the call is the same with any other
-- (Service/ToolRuns/Blind, Service/SkillRuns/Blind).
--
-- Not modelled: what the Skill adapters compute, communication, goals, reviews, the chat sessions
-- with the loop that drives an agent run, and the workflows themselves; persistence, the queue
-- transport, the HTTP interface, the model providers but the local one, and the connectors, which
-- are input and output; and methods that only list what is stored. Most methods end in `sync`,
-- which writes the state out and then, where embeddings are configured, embeds the knowledge that
-- has none: this records costs, usage and audit events, and reports incidents. It is modelled
-- (Service/Embeddings) and part of the model calls and of the budget policy here; the other methods
-- are modelled up to their `sync`, so that what they leave is the state before it.

pub mod Base
pub mod Core
pub mod Safety
pub mod Approvals
pub mod Catalog
pub mod Bootstrap
pub mod Budget
pub mod Gateway
pub mod Auth
pub mod Chat
pub mod Service
