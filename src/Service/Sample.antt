-- ===== src/Service/Sample.antt =====
-- A small company, for the runs of the service (backend/app/services/company.py).
use bug_free_enigma.Base.{true, false, [], ◌∷◌, ok}
use bug_free_enigma.Base.Text.{show}
use bug_free_enigma.Core.Time.{DateTime}
use bug_free_enigma.Core.Enums.{PermissionLevel, RiskLevel}
use bug_free_enigma.Core.Models.Catalog.{Agent, Tool}
use bug_free_enigma.Budget.{BudgetGuard}
use bug_free_enigma.Service.State.{Env, Company, SkillReply, ToolReply, Preview, Delivery, Indexing}

abbrev pub writer : Agent
writer = record {
  agent_id = "writer";
  name = "Writer";
  department = "Operations";
  role = "Writes notes";
  permissions = PermissionLevel.l1_draft ∷ PermissionLevel.l2_internal_write ∷ [];
  forbidden = "delete_file" ∷ [];
  allowed_skills = [];
  allowed_tools = "notes_tool" ∷ "mail_tool" ∷ [];
  reports_to = "human_root";
  risk_level = RiskLevel.low;
  version = "1.0.0";
  enabled = true;
}

abbrev pub notes_tool : Tool
notes_tool = record {
  tool_id = "notes_tool";
  name = "Notes";
  type = "internal";
  description = "Writes a note.";
  action = "write_note";
  permission_level = PermissionLevel.l2_internal_write;
  risk_level = RiskLevel.low;
  requires_approval = false;
  input_schema = [];
  output_schema = [];
  version = "1.0.0";
  enabled = true;
}

abbrev pub mail_tool : Tool
mail_tool = record notes_tool {
  tool_id = "mail_tool";
  action = "draft_mail";
  risk_level = RiskLevel.medium;
  requires_approval = true;
}

abbrev pub env : Env
env = record {
  uuid_hex = λ n. "a";
  clock = λ n. n;
  str_of = λ v. "";
  error_text = λ e. "error";
  isoformat = λ t. show t;
  fromisoformat = λ s. ok (DateTime.aware 60);
  has_store = true;
  embeddings_enabled = false;
  index_knowledge = λ n doc. Indexing.failed "no embeddings";
  sha256 = λ s. s;
  dumps = λ fields. "{}";
  skill_adapter = λ i input c. (SkillReply.refused "no adapter", []);
  tool_adapter = λ i input c. (ToolReply.absent, []);
  diff_preview = λ fields. Preview.shown "";
  alerts_enabled = false;
  webhook_url = "";
  transport = λ url incident. Delivery.answered 200;
}

abbrev pub budget : BudgetGuard
budget = record {
  policy = record {
    name = "Default Model Budget";
    max_tokens_per_call = 2000;
    max_total_tokens = 100000;
    max_estimated_cost = 10000000000;
    cost_per_token = 1000;
    currency = "USD";
    enabled = true;
    policy_id = "budget_policy_1";
    created_at = 0;
  };
  cost_logs = [];
}

abbrev pub company : Company
company = record {
  agents = ("writer", writer) ∷ [];
  skills = [];
  tools = ("notes_tool", notes_tool) ∷ ("mail_tool", mail_tool) ∷ [];
  approvals = [];
  audit = [];
  memory = [];
  knowledge = [];
  evaluations = [];
  budget = budget;
  usage = [];
  incidents = [];
  events = [];
  jobs = [];
  executions = [];
  tasks = [];
  tool_runs = [];
  skill_runs = [];
  indexed_knowledge_ids = [];
  failed_embedding_ids = [];
  ids_drawn = 0;
  clock_reads = 0;
}
