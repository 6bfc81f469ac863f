-- ===== src/Examples/Notices.antt =====
-- Discord calls of two keys, a failing webhook, a repeated alert of a player, and reports of a camera.
use mastermind_7dtd_ai_serve.Base.{
  ℕ, zero, suc, ◌+◌, ◌≤◌, ◌≡◌, true, false, none, some, List, [], ◌∷◌, arith, ◌⊎◌, length,
  count_where,
}
use mastermind_7dtd_ai_serve.Base.Text.{Text, lit}
use mastermind_7dtd_ai_serve.Base.Result.{ok, err}
use mastermind_7dtd_ai_serve.Schema.{obj, str, field, end}
use mastermind_7dtd_ai_serve.Discord.{Payload, Request, Wire, Fetched, answered}
use mastermind_7dtd_ai_serve.Discord.Window.{admitted, in_minute}
use mastermind_7dtd_ai_serve.Discord.Limit.{
  Call, granted, calls_at, window_of, AreClocked, granted-refines, granted_quota,
}
use mastermind_7dtd_ai_serve.Alerts.{AlertContext, AlertOrg, Board, Outside, player_connected}
use mastermind_7dtd_ai_serve.Alerts.Send.{find_org, send_matching_rules}
use mastermind_7dtd_ai_serve.Frigate.{FrigatePayload, org_missing, invalid_secret, handle_webhook}
use mastermind_7dtd_ai_serve.Frigate.Audits.{lacks_secret, detections, handle_webhook-audits}

abbrev call : Text → ℕ → Call
call key at = record { key = key; at = at }

abbrev calls : List Call
calls = call (lit "a") 0 ∷ call (lit "b") 10 ∷ call (lit "a") 20 ∷ call (lit "a") 70000 ∷ []

granted-refines_example :
    granted (lit "a") calls [] ≡ admitted (calls_at (lit "a") calls) (window_of (lit "a") [])
granted-refines_example = granted-refines (lit "a") calls []

calls-AreClocked : AreClocked 0 calls
calls-AreClocked = (omega arith, (omega arith, (omega arith, (omega arith, tt))))

granted_quota_example : count_where (in_minute 15) (granted (lit "a") calls []) ≤ 20
granted_quota_example = granted_quota (lit "a") 15 calls calls-AreClocked

-- A server that answers 503 first, and then 204.
abbrev server : ℕ → Fetched
server zero = answered 503 (lit "busy")
server (suc i) = answered 204 []

abbrev pub outside : Outside
outside = record { server = server; iso = λ t. []; parse_url = λ u. none }

abbrev wire : Wire
wire = record { now = 1000000; limits = []; requests = [] }

abbrev payload : Payload
payload = record { content = some (lit "hello"); embeds = none }

abbrev request : Request
request = record { url = lit "https://d"; payload = payload }

abbrev org : AlertOrg
org = record {
  id = 1;
  name = lit "Org";
  discord_webhook_url = some (lit "https://d");
  frigate_webhook_secret = some (lit "s");
}

abbrev pub board : Board
board = record {
  orgs = org ∷ [];
  rules =
      record {
        id = 5;
        org_id = 1;
        name = lit "Joins";
        condition = obj (field (lit "type") (str (lit "player_connected")) end);
        channel = obj (
            field (lit "type") (str (lit "discord"))
              (field (lit "webhookUrl") (str (lit "https://d")) end));
        enabled = true;
        created_at = 0;
      }
      ∷ [];
  audits = [];
  recent = [];
  wire = wire;
  next_id = 9;
}

abbrev context : AlertContext
context = record {
  org_id = 1;
  org_name = none;
  server_instance_id = some 2;
  server_instance_name = some (lit "S");
  host_id = none;
  host_name = none;
  last_heartbeat_at = none;
  reason = none;
  frigate_camera = none;
  frigate_label = none;
  frigate_score = none;
  player_name = some (lit " Ada");
  steam_id = none;
  eos_id = none;
  session_seconds = none;
}

-- The board after the alert, a little later.
abbrev later_board : Board
later_board =
    let w = send_matching_rules outside player_connected context board in
    record w { wire = record w.wire { now = 1010000 } }

abbrev report : FrigatePayload
report = record {
  before = none;
  after = some (record {
    camera = some (lit "gate");
    label = some (lit "person");
    score = some 80;
    top_score = none;
    false_positive = false;
  });
  type = some (lit "new");
}

handle_webhook-audits_example :
    let result = handle_webhook outside 1 report (some (lit "s")) board in
    ((find_org 1 board.orgs ≡ none) × (result ≡ err org_missing))
    ⊎ ((o : AlertOrg) × (find_org 1 board.orgs ≡ some o)
        × (((lacks_secret o.frigate_webhook_secret (some (lit "s")) ≡ true)
              × (result ≡ err invalid_secret))
            ⊎ ((lacks_secret o.frigate_webhook_secret (some (lit "s")) ≡ false)
                × ((w' : Board) × (result ≡ ok w')
                    × (length w'.audits
                        ≡ length board.audits
                          + detections report.type report.after report.before)))))
handle_webhook-audits_example = handle_webhook-audits outside 1 report (some (lit "s")) board
