-- ===== src/Service/Embeddings/Ledger.antt =====
-- What `sync` of backend/app/services/company.py does to the budget.
use bug_free_enigma.Base.{
  ℕ, ◌+◌, ok, String, Bool, true, false, not, List, [], ◌∷◌, ◌++◌, ◌≡◌, refl, sym, ◌∙◌, All, ap,
  ◌⊎◌, Bool-cases, ◌==◌, inl, inr, if◌then◌else◌, ◌||◌, Option, none, contains,
}
use mathlib.Core.List.{append-nil, append_assoc}
use mathlib.Core.Path.{subst}
use bug_free_enigma.Core.Enums.{ApprovalStatus, RiskLevel}
use bug_free_enigma.Core.Models.Budget.{CostLog, BudgetCheck}
use bug_free_enigma.Core.Models.Work.{KnowledgeDoc}
use bug_free_enigma.Budget.{BudgetGuard, check_model_call, record_cost}
use bug_free_enigma.Service.State.{Env, Company, EmbeddingResult, Indexing}
use bug_free_enigma.Service.Actions.{
  Action, pure, gets, continue, ◌>>=◌, bind-after-ok, new_id, utc_now,
}
use bug_free_enigma.Service.Alerts.{AlertDeliveryResult, send_incident}
use bug_free_enigma.Base.Dict.{put}
use bug_free_enigma.Base.Text.{◌<>◌}
use bug_free_enigma.Service.Records.{new_incident, log_event, log_delivery, report_incident}
use bug_free_enigma.Service.Records.Frame.{report_incident-Recorded}
use bug_free_enigma.Service.Embeddings.{
  source_of, charge, log_embedding, embedding_usage, record_embedding_usage,
  record_embedding_failure, after_embedding, embed_doc, index_doc, index_docs,
  index_missing_knowledge, sync,
}

-- A log of the indexing of knowledge: what was embedded is recorded as that, and anything else
-- costs nothing.
pub record IsIndexing (log : CostLog) : Type 0 where
  pub of_a_model : log.source_type ≡ "model_usage"
  pub charged :
      ((log.result ≡ "recorded") × (log.reason ≡ "knowledge_embedding"))
      ⊎ (((log.result ≡ "blocked") ⊎ (log.result ≡ "failed")) × (log.amount ≡ 0))

-- The second guard has the policy of the first, and logs of indexing alone behind its own.
pub record Indexes (b d : BudgetGuard) : Type 0 where
  pub same_policy : d.policy ≡ b.policy
  pub added : List CostLog
  pub grown : d.cost_logs ≡ b.cost_logs ++ added
  pub are_indexing : All IsIndexing added

pub Indexes-refl : (b : BudgetGuard) → Indexes b b
Indexes-refl b = record {
  same_policy = refl;
  added = [];
  grown = sym (append-nil b.cost_logs);
  are_indexing = tt;
}

All-snoc :
    {A : Type 0} (P : A → Type 0) (xs : List A) (x : A) → All P xs → P x → All P (xs ++ x ∷ [])
All-snoc P [] x h p = (p, tt)
All-snoc P (y ∷ xs) x h p = (h.0, All-snoc P xs x h.1 p)

log_delivery_ok :
    (env : Env) (delivery : AlertDeliveryResult) (incident_id : String)
    (task_id actor_id : Option String) (risk : RiskLevel) (c : Company)
    → (log_delivery env delivery incident_id task_id actor_id risk c).0 ≡ ok tt
unfolding log_delivery log_event
log_delivery_ok env delivery incident_id task_id actor_id risk c =
    elim (Bool-cases (delivery.status == "disabled")) [ inl e ↦ rw e refl | inr e ↦ rw e refl ]

-- a part that does not raise
abbrev Returns : {A : Type 0} → Action A → Type 0
Returns {A} m = (c : Company) → (a : A) × ((m c).0 ≡ ok a)

bind-Returns :
    {A B : Type 0} (m : Action A) (f : A → Action B)
    → Returns m
    → ((a : A) → Returns (f a))
    → Returns (m >>= f)
bind-Returns m f p q c =
    let (a, e) = p c in
    let (r, back) = q a (m c).1 in (r, ap (λ d. d.0) (bind-after-ok m f c e) ∙ back)

pub report_incident-Returns :
    (env : Env) (title description source_type source_id : String) (risk : RiskLevel)
    (task_id actor_id : Option String) (recommendation : String)
    → Returns (
        report_incident env title description source_type source_id risk task_id actor_id
          recommendation)
unfolding report_incident new_id utc_now
report_incident-Returns env title description source_type source_id risk task_id actor_id
      recommendation c =
    let i = "incident" <> "_" <> env.uuid_hex c.ids_drawn in
    let incident =
      new_incident title description source_type source_id risk task_id actor_id recommendation i
        (env.clock c.clock_reads) in
    let d = record c {
      ids_drawn = c.ids_drawn + 1;
      clock_reads = c.clock_reads + 1;
      incidents = put i incident c.incidents;
    } in
    let sent = send_incident env incident in
    (
      incident,
      ap
          (λ x.
            (continue x (λ _. pure incident) (log_delivery env sent i task_id actor_id risk d).1).0)
          (log_delivery_ok env sent i task_id actor_id risk d),
    )

module _ (env : Env) (b : BudgetGuard) where
  -- A part that does not raise, and adds logs of indexing alone to the budget.
  record Quiet {A : Type 0} (m : Action A) : Type 0 where
    indexes : (c : Company) → Indexes b c.budget → Indexes b (m c).1.budget
    returns : Returns m

  quiet :
      {A : Type 0} (m : Action A)
      → ((c : Company) → (m c).1.budget ≡ c.budget)
      → Returns m
      → Quiet m
  quiet m same returns = record {
    indexes = λ c h. subst (λ d. Indexes b d) (sym (same c)) h;
    returns = returns;
  }

  bind :
      {A B : Type 0} (m : Action A) (f : A → Action B)
      → Quiet m
      → ((a : A) → Quiet (f a))
      → Quiet (m >>= f)
  bind m f p q = record {
    indexes = λ c h.
        let (a, e) = p.returns c in
        subst (λ d. Indexes b d.1.budget) (sym (bind-after-ok m f c e))
          ((q a).indexes (m c).1 (p.indexes c h));
    returns = bind-Returns m f p.returns (λ a. (q a).returns);
  }

  bind_gets :
      {A B : Type 0} (g : Company → A) (f : A → Action B)
      → ((a : A) → Quiet (f a))
      → Quiet (gets g >>= f)
  bind_gets g f q = record {
    indexes = λ c h. (q (g c)).indexes c h;
    returns = λ c. (q (g c)).returns c;
  }

  either : {A : Type 0} (t : Bool) (m n : Action A) → Quiet m → Quiet n → Quiet (if t then m else n)
  either true m n p q = p
  either false m n p q = q

  charge-Quiet :
      (source_id actor_id : String) (task_id : Option String) (tokens amount : ℕ)
      (result reason : String)
      → ((result ≡ "recorded") × (reason ≡ "knowledge_embedding"))
        ⊎ (((result ≡ "blocked") ⊎ (result ≡ "failed")) × (amount ≡ 0))
      → Quiet (charge env source_id actor_id task_id tokens amount result reason)
  unfolding charge record_cost new_id utc_now
  charge-Quiet source_id actor_id task_id tokens amount result reason fits = record {
    indexes = λ c h.
        let (log, d) =
          record_cost c.budget "model_usage" source_id actor_id task_id tokens amount result reason
            ("cost_log" <> "_" <> env.uuid_hex c.ids_drawn) (env.clock c.clock_reads) in
        record {
          same_policy = h.same_policy;
          added = h.added ++ log ∷ [];
          grown = rw h.grown (append_assoc b.cost_logs h.added (log ∷ []));
          are_indexing =
              All-snoc IsIndexing h.added log h.are_indexing
                (record { of_a_model = refl; charged = fits });
        };
    returns = λ c. (_, refl);
  }

  record_embedding_usage-Quiet :
      (doc : KnowledgeDoc) (result : EmbeddingResult)
      → Quiet (record_embedding_usage env doc result)
  unfolding record_embedding_usage embedding_usage log_embedding
  record_embedding_usage-Quiet doc result =
      bind _ _ (quiet (embedding_usage env doc result) (λ c. refl) (λ c. (_, refl))) (λ usage.
        bind _ _
          (charge-Quiet usage.record_id "memory_agent_v1" doc.source_task_id usage.total_tokens
            usage.estimated_cost "recorded" "knowledge_embedding" (inl (refl, refl)))
          (λ _. quiet (log_embedding env doc result) (λ c. refl) (λ c. (_, refl))))

  log_event-Quiet :
      (event_type actor_id action : String) (task_id : Option String) (risk : RiskLevel)
      (status : ApprovalStatus) (result : String) (input_ref output_ref error : Option String)
      → Quiet (
          log_event env event_type actor_id action task_id risk status result input_ref output_ref
            error)
  unfolding log_event
  log_event-Quiet event_type actor_id action task_id risk status result input_ref output_ref error =
      quiet
        (log_event env event_type actor_id action task_id risk status result input_ref output_ref
          error)
        (λ c. refl) (λ c. (_, refl))

  report_incident-Quiet :
      (title description source_type source_id : String) (risk : RiskLevel)
      (task_id actor_id : Option String) (recommendation : String)
      → Quiet (
          report_incident env title description source_type source_id risk task_id actor_id
            recommendation)
  report_incident-Quiet title description source_type source_id risk task_id actor_id
        recommendation =
      quiet
        (report_incident env title description source_type source_id risk task_id actor_id
          recommendation)
        (λ c. (report_incident-Recorded env _ _ _ _ _ _ _ _ c).same_budget)
        (report_incident-Returns env title description source_type source_id risk task_id actor_id
          recommendation)

  failure_result :
      (blocked : Bool)
      → let result : String = if blocked then "blocked" else "failed" in
        (result ≡ "blocked") ⊎ (result ≡ "failed")
  failure_result true = inl refl
  failure_result false = inr refl

  record_embedding_failure-Quiet :
      (event_type actor_id : String) (doc : KnowledgeDoc) (reason : String) (tokens : ℕ)
      (blocked : Bool)
      → Quiet (record_embedding_failure env event_type actor_id doc reason tokens blocked)
  unfolding record_embedding_failure
  record_embedding_failure-Quiet event_type actor_id doc reason tokens blocked =
      bind _ _
        (charge-Quiet doc.doc_id actor_id doc.source_task_id tokens 0 _ reason
          (inr (failure_result blocked, refl)))
        (λ log. bind _ _ (log_event-Quiet _ _ _ _ _ _ _ _ _ _) (λ _.
          bind _ _ (report_incident-Quiet _ _ _ _ _ _ _ _)
            (λ _. quiet _ (λ c. refl) (λ c. (_, refl)))))

  after_embedding-Quiet :
      (doc : KnowledgeDoc) (tokens : ℕ) (reply : Indexing)
      → Quiet (after_embedding env doc tokens reply)
  unfolding after_embedding
  after_embedding-Quiet doc tokens (Indexing.failed reason) =
      record_embedding_failure-Quiet "embedding_failed" "knowledge_agent_v1" doc reason tokens false
  after_embedding-Quiet doc tokens (Indexing.embedded result) =
      bind _ _ (record_embedding_usage-Quiet doc result) (λ _. quiet _ (λ c. refl) (λ c. (_, refl)))

  -- what follows the check and the answer
  abbrev after_budget_check : KnowledgeDoc → BudgetCheck → Indexing → Action Unit
  after_budget_check doc check reply =
      if not check.allowed
      then record_embedding_failure env "embedding_blocked" "memory_agent_v1" doc check.reason
          check.estimated_tokens true
      else after_embedding env doc check.estimated_tokens reply

  embed_doc-Quiet : (doc : KnowledgeDoc) → Quiet (embed_doc env doc)
  unfolding embed_doc
  embed_doc-Quiet doc =
      bind_gets (λ c. check_model_call c.budget (source_of doc) "knowledge_embedding" none none)
        (λ check.
          gets (λ c. env.index_knowledge c.clock_reads doc) >>= after_budget_check doc check)
        (λ check.
          bind_gets (λ c. env.index_knowledge c.clock_reads doc) (after_budget_check doc check)
            (λ reply.
              either (not check.allowed)
                (record_embedding_failure env "embedding_blocked" "memory_agent_v1" doc check.reason
                  check.estimated_tokens true)
                (after_embedding env doc check.estimated_tokens reply)
                (record_embedding_failure-Quiet "embedding_blocked" "memory_agent_v1" doc
                  check.reason check.estimated_tokens true)
                (after_embedding-Quiet doc check.estimated_tokens reply)))

  index_doc-Quiet : (doc : KnowledgeDoc) → Quiet (index_doc env doc)
  unfolding index_doc
  index_doc-Quiet doc =
      bind_gets
        (λ c.
          contains doc.doc_id c.indexed_knowledge_ids || contains doc.doc_id c.failed_embedding_ids)
        (λ done. if done then pure tt else embed_doc env doc)
        (λ done.
          either done (pure tt) (embed_doc env doc) (quiet (pure tt) (λ c. refl) (λ c. (_, refl)))
            (embed_doc-Quiet doc))

  index_docs-Quiet : (docs : List KnowledgeDoc) → Quiet (index_docs env docs)
  unfolding index_docs
  index_docs-Quiet [] = quiet (pure tt) (λ c. refl) (λ c. (_, refl))
  index_docs-Quiet (doc ∷ docs) = bind _ _ (index_doc-Quiet doc) (λ _. index_docs-Quiet docs)

  sync-Quiet : Quiet (sync env)
  unfolding sync index_missing_knowledge
  sync-Quiet =
      let done = quiet (pure tt) (λ c. refl) (λ c. (_, refl)) in
      let index = gets (λ c. c.knowledge) >>= index_docs env in
      either (not env.has_store) (pure tt) (if not env.embeddings_enabled then pure tt else index)
        done
        (either (not env.embeddings_enabled) (pure tt) index done
          (bind_gets (λ c. c.knowledge) (index_docs env) index_docs-Quiet))

-- `sync` keeps the policy, and adds logs of indexing alone.
pub sync-Indexes : (env : Env) (c : Company) → Indexes c.budget (sync env c).1.budget
sync-Indexes env c = (sync-Quiet env c.budget).indexes c (Indexes-refl c.budget)

-- `sync` does not raise.
pub sync-ok : (env : Env) (c : Company) → (sync env c).0 ≡ ok tt
sync-ok env c = ((sync-Quiet env c.budget).returns c).1
