-- ===== src/Service/Models/Tests.antt =====
-- A call of the local model on a small company (backend/app/services/company.py).
use bug_free_enigma.Base.{none, false, [], ◌∷◌}
use bug_free_enigma.Gateway.{ModelGateway, local_provider}
use bug_free_enigma.Service.Models.{ModelCall}

abbrev gateway : ModelGateway
gateway = record {
  providers = ("local", local_provider) ∷ [];
  default_provider = "local";
  fallback_order = [];
  pricing = [];
  allowed_models = ("local", "deterministic_mock_v1" ∷ []) ∷ [];
}

abbrev call : ModelCall
call = record {
  prompt = "Summarize the week";
  actor_id = "writer";
  purpose = "report";
  task_id = none;
  model_name = none;
  provider = none;
  streams = false;
}
