-- ===== src/Logs/Keywords.antt =====
-- logs.service.ts: rules on keywords in the log, and the matches in a new chunk.
use mastermind_7dtd_ai_serve.Base.{
  ℕ, ◌+◌, ◌-◌, min, max, Bool, true, false, ◌&&◌, Option, none, some, List, [], ◌∷◌, ◌++◌, ◌==◌,
  leb, if◌then◌else◌, is_some, length, take, drop, select, update_where, delete_where,
}
use mastermind_7dtd_ai_serve.Base.Text.{Text, lit, to_lower, trim}
use mastermind_7dtd_ai_serve.Base.Result.{Result, ok, ◌>>=◌, ◌>>◌, require, or_throw}
use mastermind_7dtd_ai_serve.Schema.{bool, num, str, obj, end, field}
use mastermind_7dtd_ai_serve.JsonValues.{
  property, json_is, json_is_id, is_truthy, filled, string_or,
}
use mastermind_7dtd_ai_serve.Alerts.{AlertRule, Outside, add_rule, find_rule, list_rules}
use mastermind_7dtd_ai_serve.Logs.{
  Event, LogBook, LogError, bad_keyword, keyword_rule_missing, instance_missing, find_server,
  tail_text, find_tail, set_tail, add_event,
}
use mastermind_7dtd_ai_serve.Logs.Search.{last_index_of, last_units}

abbrev keyword_type : Text
keyword_type = lit "log_keyword"

abbrev is_keyword_rule : AlertRule → Bool
is_keyword_rule r = json_is keyword_type (property (lit "type") r.condition)

unfoldable pub list_keyword_rules : ℕ → LogBook → List AlertRule
list_keyword_rules org w = select is_keyword_rule (list_rules org w.board)

unfoldable pub create_keyword_rule :
    ℕ → ℕ → Text → Bool → LogBook → Result LogError (AlertRule × LogBook)
create_keyword_rule org instance_id keyword case_sensitive w =
    let clean = trim keyword in
    do
      require (is_some (filled (some clean)) && leb (length clean) 200) bad_keyword
      s ← or_throw (find_server org instance_id w) instance_missing
      let (r, board) =
          add_rule org (lit "Log: " ++ clean)
            (obj (
              field (lit "type") (str keyword_type) (
                field (lit "serverInstanceId") (num instance_id) (
                  field (lit "keyword") (str clean)
                    (field (lit "caseSensitive") (bool case_sensitive) end)))))
            (obj (field (lit "type") (str (lit "dashboard")) end)) true w.board
      ok (r, record w { board = board })

abbrev keyword_rule : Option AlertRule → Option AlertRule
keyword_rule none = none
keyword_rule (some r) = if is_keyword_rule r then some r else none

unfoldable pub set_keyword_rule_enabled : ℕ → ℕ → Bool → LogBook → Result LogError LogBook
set_keyword_rule_enabled org i enabled w = do
  r ← or_throw (keyword_rule (find_rule org i w.board.rules)) keyword_rule_missing
  ok (record w {
    board = record w.board {
      rules = update_where (λ x. x.id == i) (λ x. record x { enabled = enabled }) w.board.rules;
    };
  })

unfoldable pub delete_keyword_rule : ℕ → ℕ → LogBook → Result LogError LogBook
delete_keyword_rule org i w = do
  r ← or_throw (keyword_rule (find_rule org i w.board.rules)) keyword_rule_missing
  ok (record w { board = record w.board { rules = delete_where (λ x. x.id == i) w.board.rules } })

abbrev pub fold : Bool → Text → Text
fold true s = s
fold false s = to_lower s

-- The index of a match that ends in the new chunk: `some` where an event is recorded.
abbrev pub new_match : Option ℕ → ℕ → ℕ → Option ℕ
new_match none len prior = none
new_match (some i) len prior = if leb (i + len) prior then none else some i

-- The keyword is not empty.
unfoldable pub match_in : Bool → Text → Text → Text → Option ℕ
match_in case_sensitive keyword prior content =
    let haystack = fold case_sensitive (prior ++ content) in
    let needle = fold case_sensitive keyword in
    new_match (last_index_of needle haystack) (length needle) (length prior)

-- `searchable.slice(start, end)`.
unfoldable pub excerpt : ℕ → ℕ → Text → Text
excerpt i len searchable =
    let start = i - 180 in
    let end' = min (length searchable) (i + len + 180) in
    take (end' - start) (drop start searchable)

module _ (p : Outside) where
  unfoldable pub keyword_of : AlertRule → Text
  keyword_of r = string_or p.iso (property (lit "keyword") r.condition) []

  abbrev pub case_sensitive_of : AlertRule → Bool
  case_sensitive_of r = is_truthy (property (lit "caseSensitive") r.condition)

  -- The keyword of an enabled rule of the server instance.
  unfoldable pub watched : ℕ → AlertRule → Option Text
  watched i r =
      if is_keyword_rule r && json_is_id i (property (lit "serverInstanceId") r.condition)
      then filled (some (keyword_of r))
      else none

  abbrev pub record_match : Option ℕ → ℕ → ℕ → AlertRule → Text → Text → LogBook → LogBook
  record_match none org i r keyword searchable w = w
  record_match (some at) org i r keyword searchable w =
      add_event org i (lit "log_keyword_match")
        (field (lit "ruleId") (num r.id) (
          field (lit "ruleName") (str r.name) (
            field (lit "keyword") (str keyword) (
              field (lit "excerpt")
                (str (excerpt at (length (fold (case_sensitive_of r) keyword)) searchable)) end))))
        w

  abbrev pub match_rule : Option Text → ℕ → ℕ → AlertRule → Text → Text → LogBook → LogBook
  match_rule none org i r prior content w = w
  match_rule (some keyword) org i r prior content w =
      record_match (match_in (case_sensitive_of r) keyword prior content) org i r keyword
        (prior ++ content) w

  unfoldable pub match_rules : List AlertRule → ℕ → ℕ → Text → Text → LogBook → LogBook
  match_rules [] org i prior content w = w
  match_rules (r ∷ rs) org i prior content w =
      match_rules rs org i prior content (match_rule (watched i r) org i r prior content w)

  unfoldable pub match_keyword_alerts : ℕ → ℕ → Text → LogBook → LogBook
  match_keyword_alerts org i content w =
      let prior = tail_text (find_tail i w.scan_tails) in
      match_rules (select (λ r. r.org_id == org && r.enabled) w.board.rules) org i prior content
        (record w { scan_tails = set_tail i (last_units 256 (prior ++ content)) w.scan_tails })

-- `listKeywordMatches`, newest first.
newest_events : List Event → List Event
newest_events [] = []
newest_events (e ∷ es) = newest_events es ++ e ∷ []

abbrev of_instance : Option ℕ → ℕ → Bool
of_instance none source = true
of_instance (some i) source = source == i

unfoldable pub list_keyword_matches : ℕ → Option ℕ → ℕ → LogBook → List Event
unfolding newest_events
list_keyword_matches org instance_id limit w = take (min (max limit 1) 200) (
    newest_events (
      select
        (λ e.
          e.org_id == org
          && json_is (lit "log_keyword_match") (some (str e.event_type))
          && of_instance instance_id e.source_id)
        w.events))
