-- ===== src/Service/Alerts.antt =====
-- backend/app/observability/alerts.py: `AlertDispatcher.send_incident`. The transport is given.
use bug_free_enigma.Base.{
  ℕ, String, Bool, not, ◌||◌, ◌&&◌, Option, none, some, ltb, leb, ◌==◌, if◌then◌else◌,
}
use bug_free_enigma.Base.Text.{◌<>◌, show}
use bug_free_enigma.Core.Models.Control.{Incident}
use bug_free_enigma.Service.State.{Env, Delivery}

pub record AlertDeliveryResult : Type 0 where
  pub status : String
  pub destination : Option String
  pub http_status : Option ℕ
  pub error : Option String

abbrev delivered : Delivery → AlertDeliveryResult
delivered (Delivery.failed text) = record {
  status = "failed";
  destination = some "webhook";
  http_status = none;
  error = some text;
}
delivered (Delivery.answered http_status) =
    if ltb http_status 200 || leb 300 http_status
    then record {
      status = "failed";
      destination = some "webhook";
      http_status = some http_status;
      error = some ("webhook returned HTTP " <> show http_status);
    }
    else record {
      status = "sent";
      destination = some "webhook";
      http_status = some http_status;
      error = none;
    }

module _ (env : Env) where
  -- `AlertSettings.configured`
  abbrev pub is_configured : Bool
  is_configured = env.alerts_enabled && not (env.webhook_url == "")

  unfoldable pub send_incident : Incident → AlertDeliveryResult
  send_incident incident =
      if is_configured
      then delivered (env.transport env.webhook_url incident)
      else record { status = "disabled"; destination = none; http_status = none; error = none }
