-- ===== src/Service/State.antt =====
-- What `CompanyApplicationService` (backend/app/services/company.py) keeps and what it is given.
use bug_free_enigma.Base.{ℕ, String, Bool, List, Error, Outcome}
use bug_free_enigma.Base.Dict.{Dict}
use bug_free_enigma.Core.Time.{Instant, DateTime}
use bug_free_enigma.Core.Json.{Value, Fields}
use bug_free_enigma.Core.Models.Control.{AuditEvent, Incident}
use bug_free_enigma.Core.Models.Work.{
  Task, ToolRun, SkillRun, MemoryRecord, KnowledgeDoc, EvaluationRecord,
}
use bug_free_enigma.Core.Models.Schedule.{DomainEvent, ScheduledJob, ScheduledExecution}
use bug_free_enigma.Catalog.Agents.{AgentRegistry}
use bug_free_enigma.Catalog.Skills.{SkillRegistry}
use bug_free_enigma.Catalog.Tools.{ToolRegistry}
use bug_free_enigma.Approvals.{ApprovalCenter}
use bug_free_enigma.Core.Models.Budget.{ModelUsageRecord}
use bug_free_enigma.Budget.{BudgetGuard}

-- The stores of `CompanyOS` and the dictionaries of the service that the modelled methods use.
pub record Company : Type 0 where
  pub agents : AgentRegistry
  pub skills : SkillRegistry
  pub tools : ToolRegistry
  pub approvals : ApprovalCenter
  pub audit : List AuditEvent
  pub memory : List MemoryRecord
  pub knowledge : List KnowledgeDoc
  pub evaluations : List EvaluationRecord
  pub budget : BudgetGuard
  -- the records of `ModelGateway`
  pub usage : List ModelUsageRecord
  pub incidents : Dict Incident
  pub events : Dict DomainEvent
  pub jobs : Dict ScheduledJob
  pub executions : Dict ScheduledExecution
  pub tasks : Dict Task
  pub tool_runs : Dict ToolRun
  pub skill_runs : Dict SkillRun
  -- the documents that have an embedding, and those that could not be embedded
  pub indexed_knowledge_ids : List String
  pub failed_embedding_ids : List String
  -- how many identifiers `uuid4` has given, and how often the clock was read
  pub ids_drawn : ℕ
  pub clock_reads : ℕ

-- How a Skill adapter ends. `refused` is a `SkillRuntimeError` or a `KeyError`, with its text.
pub data SkillReply : Type 0 where
  returned : Fields → SkillReply
  refused : String → SkillReply
  crashed : Error → SkillReply

-- How a Tool adapter ends. `refused` is a `ToolAdapterError`; a Tool without an adapter is `absent`.
pub data ToolReply : Type 0 where
  returned : Fields → ToolReply
  absent : ToolReply
  refused : String → ToolReply
  crashed : Error → ToolReply

-- What `workspace_patch_preview` gives for an input: the diff, or a `ToolAdapterError`'s text.
pub data Preview : Type 0 where
  shown : String → Preview
  unshown : String → Preview

-- How a call of the alert transport ends: with an HTTP status, or with an exception's text.
pub data Delivery : Type 0 where
  answered : ℕ → Delivery
  failed : String → Delivery

-- What `EmbeddingGateway.embed` gives, without the vector.
pub record EmbeddingResult : Type 0 where
  pub input_tokens : ℕ
  pub provider : String
  pub model_name : String
  pub input_ref : String

-- How the embedding of a document ends, its storing in the vector store included. `failed` has the
-- text that `_provider_error` makes of an exception.
pub data Indexing : Type 0 where
  embedded : EmbeddingResult → Indexing
  failed : String → Indexing

-- What the methods are given, beside `str` of a value that is no text: the clock, `uuid4().hex[:12]` by the number of the draw, `hashlib`,
-- `json.dumps`, the adapters with the records that they write, and the alert settings with the
-- transport.
pub record Env : Type 0 where
  pub uuid_hex : ℕ → String
  pub clock : ℕ → Instant
  pub str_of : Value → String
  -- `str` of an exception, and the two directions of `isoformat`
  pub error_text : Error → String
  pub isoformat : Instant → String
  pub fromisoformat : String → Outcome DateTime
  -- whether a persistence store is configured
  pub has_store : Bool
  -- whether a vector store and embeddings are configured, and what comes of the embedding of a
  -- document at a reading of the clock
  pub embeddings_enabled : Bool
  pub index_knowledge : ℕ → KnowledgeDoc → Indexing
  pub sha256 : String → String
  pub dumps : Fields → String
  pub skill_adapter : String → Fields → Company → SkillReply × List MemoryRecord
  pub tool_adapter : String → Fields → Company → ToolReply × List KnowledgeDoc
  pub diff_preview : Fields → Preview
  pub alerts_enabled : Bool
  pub webhook_url : String
  pub transport : String → Incident → Delivery
