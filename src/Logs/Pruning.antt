-- ===== src/Logs/Pruning.antt =====
-- logs.service.ts: getSettings, updateSettings, prune and list.
use mastermind_7dtd_ai_serve.Base.{
  ℕ, ◌+◌, ◌*◌, min, max, Bool, true, false, not, ◌&&◌, ◌||◌, Option, none, some, List, [], ◌∷◌,
  ◌++◌, ◌==◌, leb, ltb, if◌then◌else◌, find_first, select, update_where, delete_where, take,
}
use mastermind_7dtd_ai_serve.Base.Result.{Result, ok, ◌>>=◌, ◌>>◌, require, or_throw}
use mastermind_7dtd_ai_serve.Logs.{
  ServerLog, Retention, LogBook, LogError, org_missing, bad_retention, clock,
}

abbrev find_retention : ℕ → LogBook → Option Retention
find_retention org w = find_first (λ r. r.org_id == org) w.retentions

unfoldable pub get_settings : ℕ → LogBook → Result LogError ℕ
get_settings org w = do r ← or_throw (find_retention org w) org_missing; ok r.days

abbrev pruned_at : Option (ℕ × ℕ) → ℕ
pruned_at none = 0
pruned_at (some e) = e.1

abbrev find_prune : ℕ → List (ℕ × ℕ) → Option (ℕ × ℕ)
find_prune org = find_first (λ e. e.0 == org)

abbrev set_prune_from : Option (ℕ × ℕ) → ℕ → ℕ → List (ℕ × ℕ) → List (ℕ × ℕ)
set_prune_from none org now es = es ++ (org, now) ∷ []
set_prune_from (some e) org now es = update_where (λ x. x.0 == org) (λ x. (org, now)) es

-- `createdAt < now - days * 86400000`.
abbrev pub is_expired : ℕ → ℕ → ℕ → ServerLog → Bool
is_expired org now days l = l.org_id == org && ltb (l.created_at + days * 86400000) now

abbrev delete_expired : Option Retention → ℕ → LogBook → LogBook
delete_expired none org w = w
delete_expired (some r) org w = record w {
  logs = delete_where (is_expired org (clock w) r.days) w.logs;
}

unfoldable pub prune : ℕ → LogBook → LogBook
prune org w =
    let found = find_prune org w.last_prune in
    elim (ltb (clock w) (pruned_at found + 60000)) [
      | true ↦ w
      | false ↦
          delete_expired (find_retention org w) org
            (record w { last_prune = set_prune_from found org (clock w) w.last_prune })
    ]

unfoldable pub update_settings : ℕ → ℕ → LogBook → Result LogError (ℕ × LogBook)
update_settings org days w = do
  require (days == 1 || days == 7 || days == 30) bad_retention
  r ← or_throw (find_retention org w) org_missing
  ok (
    days,
    prune org (record w {
      retentions = update_where (λ r. r.org_id == org) (λ r. record r { days = days }) w.retentions;
      last_prune = delete_where (λ e. e.0 == org) w.last_prune;
    }),
  )

abbrev in_scope : ℕ → Option ℕ → ServerLog → Bool
in_scope org none l = l.org_id == org
in_scope org (some i) l = l.org_id == org && l.server_instance_id == i

-- `limit || 250`, between 1 and 1000.
abbrev page_size : ℕ → ℕ
page_size limit = min (max (if limit == 0 then 250 else limit) 1) 1000

backwards : List ServerLog → List ServerLog
backwards [] = []
backwards (l ∷ ls) = backwards ls ++ l ∷ []

-- Rows are in the order of creation, so the newest page in that order is its reversal reversed.
unfoldable pub list_from : Option ServerLog → ℕ → Option ℕ → ℕ → LogBook → List ServerLog
unfolding backwards
list_from none org i limit w =
    backwards (take (page_size limit) (backwards (select (in_scope org i) w.logs)))
list_from (some c) org i limit w =
    take (page_size limit)
      (select (λ l. in_scope org i l && leb c.created_at l.created_at && not (l.id == c.id)) w.logs)

abbrev find_cursor : Option ℕ → ℕ → Option ℕ → LogBook → Option ServerLog
find_cursor none org i w = none
find_cursor (some after) org i w = find_first (λ l. l.id == after && in_scope org i l) w.logs

unfoldable pub list : ℕ → Option ℕ → ℕ → Option ℕ → LogBook → List ServerLog
list org i limit after w = list_from (find_cursor after org i w) org i limit w
