-- ===== src/Frigate.antt =====
-- control-plane/src/frigate/frigate-webhook.controller.ts: detections that the Frigate recorder reports.
pub mod Audits
use mastermind_7dtd_ai_serve.Base.{
  ℕ, Bool, true, false, Option, none, some, List, ◌==◌, or_else, find_first, if◌then◌else◌,
}
use mastermind_7dtd_ai_serve.Base.Text.{Text, lit, text_eq}
use mastermind_7dtd_ai_serve.Base.Result.{Result, ok, err, ◌>>=◌, ◌>>◌, require, or_throw}
use mastermind_7dtd_ai_serve.JsonValues.{filled}
use mastermind_7dtd_ai_serve.Alerts.{AlertContext, Board, Outside}
use mastermind_7dtd_ai_serve.Alerts.Send.{find_org, send_alert}

-- The fields of an event that are read; each may be missing from the body of the request.
pub record FrigateEvent : Type 0 where
  pub camera : Option Text
  pub label : Option Text
  pub score : Option ℕ
  pub top_score : Option ℕ
  pub false_positive : Bool

pub record FrigatePayload : Type 0 where
  pub before : Option FrigateEvent
  pub after : Option FrigateEvent
  pub type : Option Text

pub data FrigateError : Type 0 where
  org_missing invalid_secret : FrigateError

abbrev text_is : Text → Option Text → Bool
text_is t none = false
text_is t (some s) = text_eq s t

-- Where a secret is set, the header must be the same text.
unfoldable pub secret_ok : Option Text → Option Text → Bool
secret_ok secret incoming = elim (filled secret) [ none ↦ true | some s ↦ text_is s incoming ]

abbrev detection_of : FrigatePayload → Option FrigateEvent
detection_of f = if text_is (lit "new") f.type then or_else f.after f.before else none

-- The detection that is alerted.
unfoldable pub alerted : FrigatePayload → Option FrigateEvent
alerted f = elim (detection_of f) [
  | none ↦ none
  | some e ↦ if e.false_positive then none else some e
]

unfoldable pub detection_context : ℕ → FrigateEvent → AlertContext
detection_context org e = record {
  org_id = org;
  org_name = none;
  server_instance_id = none;
  server_instance_name = none;
  host_id = none;
  host_name = none;
  last_heartbeat_at = none;
  reason = none;
  frigate_camera = e.camera;
  frigate_label = e.label;
  frigate_score = or_else e.top_score e.score;
  player_name = none;
  steam_id = none;
  eos_id = none;
  session_seconds = none;
}

module _ (p : Outside) where
  abbrev pub alert_detection : Option FrigateEvent → ℕ → Board → Board
  alert_detection none org w = w
  alert_detection (some e) org w =
      (send_alert p (lit "FRIGATE_DETECTION") (detection_context org e) w).1

  unfoldable pub handle_webhook :
      ℕ → FrigatePayload → Option Text → Board → Result FrigateError Board
  handle_webhook org f incoming w = do
    o ← or_throw (find_org org w.orgs) org_missing
    require (secret_ok o.frigate_webhook_secret incoming) invalid_secret
    ok (alert_detection (alerted f) org w)
