-- ===== src/Logs/Append.antt =====
-- logs.service.ts: append. An exception of one of its steps on a stored chunk is caught in the code, and is not
-- modelled.
use mastermind_7dtd_ai_serve.Base.{
  ℕ, ◌+◌, ◌&&◌, Option, [], ◌∷◌, ◌++◌, ◌==◌, leb, length, find_first,
}
use mastermind_7dtd_ai_serve.Base.Text.{Text}
use mastermind_7dtd_ai_serve.Base.Result.{Result, ok, ◌>>=◌, ◌>>◌, require, or_throw}
use mastermind_7dtd_ai_serve.Schema.{ServerInstance}
use mastermind_7dtd_ai_serve.Alerts.{Outside}
use mastermind_7dtd_ai_serve.Logs.{LogBook, LogError, chunk_too_long, instance_not_on_host, clock}
use mastermind_7dtd_ai_serve.Logs.Keywords.{match_keyword_alerts}
use mastermind_7dtd_ai_serve.Logs.Chat.{parse_chat}
use mastermind_7dtd_ai_serve.Logs.Arrivals.{parse_players}
use mastermind_7dtd_ai_serve.Logs.Relays.{retry_chat_relays}
use mastermind_7dtd_ai_serve.Logs.Pruning.{prune}

module _ (p : Outside) where
  abbrev find_on_host : ℕ → ℕ → LogBook → Option ServerInstance
  find_on_host host i w = find_first (λ s. s.id == i && s.host_id == host) w.world.instances

  unfoldable pub append : ℕ → ℕ → Text → LogBook → Result LogError LogBook
  append host i [] w = ok w
  append host i (c ∷ s) w =
      let content = c ∷ s in
      do
        require (leb (length content) 65536) chunk_too_long
        si ← or_throw (find_on_host host i w) instance_not_on_host
        let w1 : LogBook = record w {
          logs =
              w.logs
              ++ record {
                id = w.next_id;
                org_id = si.org_id;
                server_instance_id = si.id;
                content = content;
                created_at = clock w;
              }
                ∷ [];
          next_id = w.next_id + 1;
        }
        let w2 = match_keyword_alerts p si.org_id si.id content w1
        let w3 = parse_chat p si.org_id si.id si.name content w2
        let w4 = parse_players p si.org_id si.id si.name content w3
        ok (prune si.org_id (retry_chat_relays p si.org_id si.id w4))
