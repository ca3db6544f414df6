-- ===== src/Service/Embeddings/Tests.antt =====
-- `sync` on a company with one document and no embedding (backend/app/services/company.py).
use bug_free_enigma.Base.{true, none, [], ◌∷◌, ◌≡◌, refl, contains, with_item, map, sum_of}
use bug_free_enigma.Core.Models.Work.{KnowledgeDoc}
use bug_free_enigma.Budget.{
  estimate_tokens, mock_response, spent_tokens, spent_cost, check_model_call, record_cost,
}
use bug_free_enigma.Base.Float.{nearest, bits, double, scaled, plus, round_9}
use bug_free_enigma.Base.Text.{words, join, prefix}
use bug_free_enigma.Service.State.{Env, Company, Indexing}
use bug_free_enigma.Service.Sample.{env, company}
use bug_free_enigma.Service.Actions.{new_id, utc_now}
use bug_free_enigma.Service.Embeddings.{
  charge, log_embedding, embedding_usage, record_embedding_usage, after_embedding, embed_doc,
  index_doc, index_docs, index_missing_knowledge, sync,
}

abbrev note : KnowledgeDoc
note = record {
  title = "Tone";
  content = "Be brief.";
  source_task_id = none;
  doc_id = "knowledge_1";
  created_at = 0;
}

abbrev embeds : Env
embeds = record env {
  embeddings_enabled = true;
  index_knowledge = λ n doc. Indexing.embedded (record {
    input_tokens = 5;
    provider = "openai";
    model_name = "text-embedding-3-small";
    input_ref = "input_sha256";
  });
}

abbrev library : Company
library = record company { knowledge = note ∷ [] }

-- five tokens at a millionth each, once
embedding_is_charged : map (λ log. log.amount) (sync embeds library).1.budget.cost_logs ≡ 5000 ∷ []
unfolding sync index_missing_knowledge index_docs index_doc embed_doc after_embedding
    record_embedding_usage embedding_usage charge record_cost log_embedding new_id utc_now contains
    with_item check_model_call estimate_tokens mock_response spent_tokens spent_cost sum_of words
    join prefix nearest bits double scaled plus round_9
embedding_is_charged = refl

embedding_is_charged_once :
    (sync embeds (sync embeds library).1).1.budget ≡ (sync embeds library).1.budget
unfolding sync index_missing_knowledge index_docs index_doc embed_doc after_embedding
    record_embedding_usage embedding_usage charge record_cost log_embedding new_id utc_now contains
    with_item check_model_call estimate_tokens mock_response spent_tokens spent_cost sum_of words
    join prefix nearest bits double scaled plus round_9
embedding_is_charged_once = refl
