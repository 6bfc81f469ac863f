-- ===== src/Discord/Delivery.antt =====
-- discord.service.ts: how often `send` posts, and what it answers.
use mastermind_7dtd_ai_serve.Base.{
  ℕ, zero, suc, ◌+◌, ◌*◌, ◌<◌, ◌≡◌, min, Bool, true, false, none, some, List, [], ◌∷◌, ◌++◌, ◌⊎◌,
  length, ◌==◌, ◌||◌, leb,
}
use mastermind_7dtd_ai_serve.Base.Text.{Text}
use mastermind_7dtd_ai_serve.Discord.{
  Request, Wire, Fetched, Sent, delivered, undelivered, retry_max_ms, read_response,
}

-- `n` requests alike.
unfoldable pub repeat : ℕ → Request → List Request
repeat zero r = []
repeat (suc n) r = r ∷ repeat n r

abbrev pub asks_again : Sent → Bool
asks_again delivered = false
asks_again (undelivered none error) = false
asks_again (undelivered (some status) error) = status == 429 || leb 500 status

-- The waits of `n` attempts, the first of `delay` milliseconds.
unfoldable pub backoff : ℕ → ℕ → ℕ
backoff zero delay = 0
backoff (suc n) delay = delay + backoff n (min (delay * 2) retry_max_ms)

module _ (server : ℕ → Fetched) where
  -- What the post with `k` posts before it gets, counted from `start`.
  abbrev pub reply_at : ℕ → ℕ → Sent
  reply_at start k = read_response (server (start + k))

  -- From a state with `start` requests: `more` + 1 of at most `n` posts are made; all but the last get an
  -- answer that asks to try again, the last one does not unless no attempt is left, and its answer is the
  -- result.
  abbrev pub IsRetried : ℕ → Request → Wire → Sent → Wire → Type 0
  IsRetried n r w out w' =
      (more : ℕ) × (more < n)
      × (w'.requests ≡ w.requests ++ repeat (suc more) r)
      × ((k : ℕ) → k < more → asks_again (reply_at (length w.requests) k) ≡ true)
      × ((suc more ≡ n) ⊎ (asks_again (reply_at (length w.requests) more) ≡ false))
      × (out ≡ reply_at (length w.requests) more)
