-- ===== src/Discord.antt =====
-- control-plane/src/discord: discord.service.ts with discord.constants.ts and discord.types.ts. What
-- `fetch` answers to a request is the network's: a parameter, by the request's position among all.
pub mod Window
pub mod Limit
pub mod Delivery
use mastermind_7dtd_ai_serve.Base.{
  ℕ, zero, suc, ◌+◌, ◌*◌, min, Bool, true, false, ◌&&◌, ◌||◌, Option, none, some, List, [], ◌∷◌,
  ◌++◌, ◌==◌, leb, ltb, if◌then◌else◌, or_default, length, take, find_first, update_where,
}
use mastermind_7dtd_ai_serve.Base.Text.{Text, lit, text_eq}

pub record EmbedField : Type 0 where
  pub name : Text
  pub value : Text
  pub inline : Bool

pub record Embed : Type 0 where
  pub title : Option Text
  pub description : Option Text
  pub color : Option ℕ
  pub fields : Option (List EmbedField)
  pub footer : Option Text
  pub timestamp : Option ℕ

pub record Payload : Type 0 where
  pub content : Option Text
  pub embeds : Option (List Embed)

-- An entry of `rateLimitMap` with its key.
pub record Bucket : Type 0 where
  pub key : Text
  pub count : ℕ
  pub window_start : ℕ

pub record Request : Type 0 where
  pub url : Text
  pub payload : Payload

-- The clock, the map of the rate limiter and the requests made so far.
pub record Wire : Type 0 where
  pub now : ℕ
  pub limits : List Bucket
  pub requests : List Request

-- What `fetch` gives: a response with its status and body, or an exception with its message.
pub data Fetched : Type 0 where
  answered : ℕ → Text → Fetched
  threw : Text → Fetched

-- The results of `send` and `post`.
pub data Sent : Type 0 where
  delivered : Sent
  undelivered : Option ℕ → Text → Sent

abbrev pub max_per_window : ℕ
max_per_window = 10

abbrev pub window_ms : ℕ
window_ms = 60000

abbrev pub retry_attempts : ℕ
retry_attempts = 3

abbrev pub retry_initial_ms : ℕ
retry_initial_ms = 1000

abbrev pub retry_max_ms : ℕ
retry_max_ms = 10000

abbrev pub find_bucket : Text → List Bucket → Option Bucket
find_bucket key = find_first (λ b. text_eq b.key key)

abbrev pub set_bucket : ℕ → ℕ → Text → List Bucket → List Bucket
set_bucket count start key =
    update_where (λ b. text_eq b.key key) (λ b. record b { count = count; window_start = start })

abbrev pub consume_from : Option Bucket → Text → ℕ → List Bucket → Bool × List Bucket
consume_from none key now limits =
    (true, limits ++ record { key = key; count = 1; window_start = now } ∷ [])
consume_from (some b) key now limits =
    if leb (b.window_start + window_ms) now
    then (true, set_bucket 1 now key limits)
    else (if leb max_per_window b.count
        then (false, limits)
        else (true, set_bucket (b.count + 1) b.window_start key limits))

-- `tryConsumeRateLimit`.
unfoldable pub try_consume_rate_limit : Text → ℕ → List Bucket → Bool × List Bucket
try_consume_rate_limit key now limits = consume_from (find_bucket key limits) key now limits

-- `res.ok`, and the result of `post`.
unfoldable pub read_response : Fetched → Sent
read_response (answered status body) =
    if leb 200 status && leb status 299
    then delivered
    else undelivered (some status) (take 200 body)
read_response (threw message) = undelivered none message

abbrev pub is_retryable : Option ℕ → Bool
is_retryable none = false
is_retryable (some status) = status == 429 || leb 500 status

abbrev pub sleep : ℕ → Wire → Wire
sleep ms w = record w { now = w.now + ms }

module _ (server : ℕ → Fetched) where
  unfoldable pub post : Text → Payload → Wire → Sent × Wire
  post url payload w = (
    read_response (server (length w.requests)),
    record w { requests = w.requests ++ record { url = url; payload = payload } ∷ [] },
  )

  -- The loop of `send`, with the attempts left, and the status and error of the last attempt.
  unfoldable pub attempts : ℕ → ℕ → Option ℕ → Option Text → Text → Payload → Wire → Sent × Wire
  attempts zero delay status error url payload w =
      (undelivered status (or_default error (lit "Unknown error")), w)
  attempts (suc n) delay status error url payload w =
      let (reply, w1) = post url payload w in
      elim reply [
        | delivered ↦ (delivered, w1)
        | undelivered status' error' ↦ elim (is_retryable status') [
          | true ↦
              attempts n (min (delay * 2) retry_max_ms) status' (some error') url payload
                (sleep delay w1)
          | false ↦ (undelivered status' error', w1)
        ]
      ]

  unfoldable pub send : Text → Payload → Text → Wire → Sent × Wire
  send url payload key w =
      let (granted, limits) = try_consume_rate_limit key w.now w.limits in
      let w1 : Wire = record w { limits = limits } in
      elim granted [
        | true ↦ attempts retry_attempts retry_initial_ms none none url payload w1
        | false ↦ (undelivered none (lit "Rate limit exceeded"), w1)
      ]
