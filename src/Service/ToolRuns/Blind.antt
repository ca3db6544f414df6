-- ===== src/Service/ToolRuns/Blind.antt =====
-- The parts of the methods on Tool runs (backend/app/services/company.py) that call no adapter: they
-- are the same whatever the adapters do.
use bug_free_enigma.Base.{String, Option, List, ◌≡◌, refl}
use bug_free_enigma.Core.Json.{Fields}
use bug_free_enigma.Core.Enums.{ApprovalStatus}
use bug_free_enigma.Core.Models.Catalog.{Tool}
use bug_free_enigma.Core.Models.Control.{RiskAssessment, ApprovalRequest}
use bug_free_enigma.Core.Models.Work.{ToolRun, KnowledgeDoc}
use bug_free_enigma.Service.State.{Env, Company, ToolReply}
use bug_free_enigma.Service.Actions.{new_id, utc_now}
use bug_free_enigma.Service.Records.{log_event, report_incident}
use bug_free_enigma.Service.ToolApproval.{tool_approval_input, tool_approval_matches_run}
use bug_free_enigma.Service.ToolRuns.Execution.{report_if_blocked}
use bug_free_enigma.Service.ToolRuns.Request.{tool_request, file_run}
use bug_free_enigma.Service.ToolRuns.Waiting.{live_controls}
use bug_free_enigma.Service.ToolRuns.Decision.{file_completion}

-- What a Tool adapter does: its reply, and the documents that it writes.
abbrev pub Adapter : Type 0
Adapter = String → Fields → Company → ToolReply × List KnowledgeDoc

-- the service with another adapter
abbrev pub with_adapter : Adapter → Env → Env
with_adapter other env = record env { tool_adapter = other }

module _ (other : Adapter) (env : Env) where
  pub matches-blind :
      (a : ApprovalRequest) (run : ToolRun) (tool : Tool)
      → tool_approval_matches_run (with_adapter other env) a run tool
        ≡ tool_approval_matches_run env a run tool
  unfolding tool_approval_matches_run tool_approval_input
  matches-blind a run tool = refl

  pub tool_request-blind :
      (tool : Tool) (actor_id : String) (task_id : Option String) (reason : String) (input : Fields)
      → tool_request (with_adapter other env) tool actor_id task_id reason input
        ≡ tool_request env tool actor_id task_id reason input
  unfolding tool_approval_input
  tool_request-blind tool actor_id task_id reason input = refl

  pub live_controls-blind :
      (run : ToolRun) (c : Company)
      → live_controls (with_adapter other env) run c ≡ live_controls env run c
  unfolding live_controls tool_approval_input
  live_controls-blind run c = refl

  pub file_completion-blind :
      (i by : String) (remark : Option String) (a : ApprovalRequest) (run : ToolRun) (c : Company)
      → file_completion (with_adapter other env) i by remark a run c
        ≡ file_completion env i by remark a run c
  unfolding file_completion report_if_blocked report_incident log_event new_id utc_now
  file_completion-blind i by remark a run c = refl

  pub file_run-blind :
      (tool : Tool) (risk : RiskAssessment) (d : ToolRun × ApprovalStatus) (c : Company)
      → file_run (with_adapter other env) tool risk d c ≡ file_run env tool risk d c
  unfolding file_run report_if_blocked report_incident log_event new_id utc_now
  file_run-blind tool risk d c = refl
