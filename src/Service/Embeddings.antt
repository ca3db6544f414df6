-- ===== src/Service/Embeddings.antt =====
-- `sync` of backend/app/services/company.py: it writes the state out, and embeds the knowledge that
-- has no embedding yet, which costs money and leaves records. The writing itself is not modelled.
pub mod Ledger
mod Tests
use bug_free_enigma.Base.{
  ℕ, ◌*◌, String, not, ◌||◌, ◌&&◌, Option, none, some, List, [], ◌∷◌, ◌++◌, Bool, contains,
  with_item, true, false, if◌then◌else◌,
}
use bug_free_enigma.Base.Text.{◌<>◌}
use bug_free_enigma.Core.Enums.{ApprovalStatus, RiskLevel}
use bug_free_enigma.Core.Models.Budget.{CostLog, ModelUsageRecord}
use bug_free_enigma.Core.Models.Work.{KnowledgeDoc}
use bug_free_enigma.Budget.{check_model_call, record_cost}
use bug_free_enigma.Service.State.{Env, EmbeddingResult, Indexing}
use bug_free_enigma.Service.Actions.{Action, pure, gets, modify, ◌>>=◌, ◌>>◌, new_id, utc_now}
use bug_free_enigma.Service.Records.{log_event, report_incident}

-- `f"{doc.title}\n\n{doc.content}"`
abbrev pub source_of : KnowledgeDoc → String
source_of doc = doc.title <> "\n\n" <> doc.content

module _ (env : Env) where
  -- `self.company_os.budget.record_cost(source_type="model_usage", ...)`
  unfoldable pub charge : String → String → Option String → ℕ → ℕ → String → String → Action CostLog
  unfolding new_id utc_now record_cost
  charge source_id actor_id task_id tokens amount result reason = do
    record_id ← new_id env "cost_log"
    created_at ← utc_now env
    cost_log ← gets (λ c.
        (record_cost c.budget "model_usage" source_id actor_id task_id tokens amount result reason
          record_id created_at).0)
    modify (λ c. record c {
      budget =
          (record_cost c.budget "model_usage" source_id actor_id task_id tokens amount result reason
            record_id created_at).1;
    })
    pure cost_log

  -- the audit event of an embedding, with the model that it names
  unfoldable pub log_embedding : KnowledgeDoc → EmbeddingResult → Action Unit
  unfolding new_id utc_now
  log_embedding doc result = do
    event_id ← new_id env "audit"
    created_at ← utc_now env
    modify (λ c. record c {
      audit =
          c.audit
          ++ record {
            event_type = "knowledge_embedding_indexed";
            actor_id = "memory_agent_v1";
            action = "knowledge_embedding";
            task_id = doc.source_task_id;
            risk_level = RiskLevel.low;
            approval_status = ApprovalStatus.not_required;
            result = "embedding usage recorded";
            input_ref = some result.input_ref;
            output_ref = some doc.doc_id;
            error = none;
            model_name = some result.model_name;
            version = "1.0.0";
            event_id = event_id;
            created_at = created_at;
          }
            ∷ [];
    })

  -- `record_usage` of the gateway, for an embedding
  unfoldable pub embedding_usage : KnowledgeDoc → EmbeddingResult → Action ModelUsageRecord
  unfolding new_id utc_now
  embedding_usage doc result = do
    record_id ← new_id env "model_usage"
    created_at ← utc_now env
    cost_per_token ← gets (λ c. c.budget.policy.cost_per_token)
    let usage : ModelUsageRecord = record {
      model_name = result.model_name;
      provider = result.provider;
      actor_id = "memory_agent_v1";
      task_id = doc.source_task_id;
      purpose = "knowledge_embedding";
      prompt_tokens = result.input_tokens;
      completion_tokens = 0;
      total_tokens = result.input_tokens;
      estimated_cost = result.input_tokens * cost_per_token;
      input_ref = result.input_ref;
      output_ref = doc.doc_id;
      record_id = record_id;
      created_at = created_at;
    }
    modify (λ c. record c { usage = c.usage ++ usage ∷ [] })
    pure usage

  -- `_record_embedding_usage`
  unfoldable pub record_embedding_usage : KnowledgeDoc → EmbeddingResult → Action Unit
  record_embedding_usage doc result = do
    usage ← embedding_usage doc result
    charge usage.record_id "memory_agent_v1" doc.source_task_id usage.total_tokens
        usage.estimated_cost "recorded" "knowledge_embedding"
    log_embedding doc result

  -- `_record_embedding_failure`
  unfoldable pub record_embedding_failure :
      String → String → KnowledgeDoc → String → ℕ → Bool → Action Unit
  record_embedding_failure event_type actor_id doc reason tokens blocked = do
    cost_log ←
        charge doc.doc_id actor_id doc.source_task_id tokens 0
          (if blocked then "blocked" else "failed") reason
    log_event env event_type actor_id "knowledge_embedding" doc.source_task_id RiskLevel.medium
        (if blocked then ApprovalStatus.blocked else ApprovalStatus.not_required) reason
        (some doc.doc_id) none (if blocked then none else some reason)
    report_incident env
        (if blocked then "Knowledge embedding was blocked" else "Knowledge embedding failed") reason
        "model_usage" cost_log.record_id RiskLevel.medium doc.source_task_id (some actor_id)
        "Review provider health, embedding configuration, and budget policy; lexical search remains available."
    modify (λ c. record c { failed_embedding_ids = with_item doc.doc_id c.failed_embedding_ids })

  -- what came of `embed` and of the storing of the embedding
  unfoldable pub after_embedding : KnowledgeDoc → ℕ → Indexing → Action Unit
  after_embedding doc tokens (Indexing.failed reason) =
      record_embedding_failure "embedding_failed" "knowledge_agent_v1" doc reason tokens false
  after_embedding doc tokens (Indexing.embedded result) = do
    record_embedding_usage doc result
    modify (λ c. record c { indexed_knowledge_ids = with_item doc.doc_id c.indexed_knowledge_ids })

  -- the body of the loop over the documents, for a document without an embedding
  unfoldable pub embed_doc : KnowledgeDoc → Action Unit
  embed_doc doc = do
    check ← gets (λ c. check_model_call c.budget (source_of doc) "knowledge_embedding" none none)
    reply ← gets (λ c. env.index_knowledge c.clock_reads doc)
    (if not check.allowed
        then record_embedding_failure "embedding_blocked" "memory_agent_v1" doc check.reason
            check.estimated_tokens true
        else after_embedding doc check.estimated_tokens reply)

  unfoldable pub index_doc : KnowledgeDoc → Action Unit
  index_doc doc = do
    done ← gets (λ c.
        contains doc.doc_id c.indexed_knowledge_ids || contains doc.doc_id c.failed_embedding_ids)
    if done then pure tt else embed_doc doc

  unfoldable pub index_docs : List KnowledgeDoc → Action Unit
  index_docs [] = pure tt
  index_docs (doc ∷ docs) = do index_doc doc; index_docs docs

  -- `_index_missing_knowledge`
  unfoldable pub index_missing_knowledge : Action Unit
  index_missing_knowledge =
      if not env.embeddings_enabled
      then pure tt
      else (do docs ← gets (λ c. c.knowledge); index_docs docs)

  unfoldable pub sync : Action Unit
  sync = if not env.has_store then pure tt else index_missing_knowledge
