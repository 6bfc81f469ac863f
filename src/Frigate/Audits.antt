-- ===== src/Frigate/Audits.antt =====
-- frigate-webhook.controller.ts: what a report leaves in the audit log.
use mastermind_7dtd_ai_serve.Base.{
  ℕ, ◌+◌, ◌≡◌, refl, ap, ◌∙◌, Bool, not, ◌&&◌, [], ◌∷◌, true, false, Option, none, some, arith, ◌⊎◌,
  inl, inr, if◌then◌else◌, is_some, Bool-cases, Option-cases, length, length-append, find_first,
}
use mastermind_7dtd_ai_serve.Base.Text.{Text, lit, text_eq}
use mastermind_7dtd_ai_serve.Base.Result.{ok, err}
use mastermind_7dtd_ai_serve.Alerts.{
  AlertType, AlertContext, AlertOrg, Board, Outside, frigate_detection, type_text,
}
use mastermind_7dtd_ai_serve.Alerts.Send.{
  find_org, send_to, webhook_of, send_on, audit_alert, send_alert,
}
use mastermind_7dtd_ai_serve.Frigate.{
  FrigateEvent, FrigatePayload, secret_ok, alerted, detection_context, alert_detection,
  handle_webhook, invalid_secret, org_missing,
}

-- Whether the organisation has a secret, which is not empty, that the request does not give.
abbrev pub lacks_secret : Option Text → Option Text → Bool
lacks_secret none given = false
lacks_secret (some []) given = false
lacks_secret (some (c ∷ s)) none = true
lacks_secret (some (c ∷ s)) (some given) = not (text_eq given (c ∷ s))

-- How many real detections a report of this type tells of, where `after` counts before `before`.
abbrev pub detections : Option Text → Option FrigateEvent → Option FrigateEvent → ℕ
detections none after before = 0
detections (some t) none none = 0
detections (some t) (some e) before = if text_eq t (lit "new") && not e.false_positive then 1 else 0
detections (some t) none (some e) = if text_eq t (lit "new") && not e.false_positive then 1 else 0

lacks_secret-secret_ok :
    (secret given : Option Text) → secret_ok secret given ≡ not (lacks_secret secret given)
unfolding secret_ok
lacks_secret-secret_ok none given = refl
lacks_secret-secret_ok (some []) given = refl
lacks_secret-secret_ok (some (c ∷ s)) none = refl
lacks_secret-secret_ok (some (c ∷ s)) (some given) = ground arith

detections-alerted :
    (f : FrigatePayload)
    → (if is_some (alerted f) then 1 else 0) ≡ detections f.type f.after f.before
unfolding alerted
detections-alerted f = by_case f.type f.after f.before
  where
    by_case :
        (type : Option Text) (after before : Option FrigateEvent)
        → (if is_some (alerted (record f { type = type; after = after; before = before }))
            then 1
            else 0)
          ≡ detections type after before
    by_case none after before = refl
    by_case (some t) none none = ground arith
    by_case (some t) (some e) before = ground arith
    by_case (some t) none (some e) = ground arith

module _ (p : Outside) where
  send_to-audits :
      (o : Option (AlertOrg × Text)) (text : Text) (t : AlertType) (c : AlertContext) (w : Board)
      → length (send_to p o text t c w).1.audits ≡ length w.audits + 1
  unfolding audit_alert send_on
  send_to-audits none text t c w = length-append w.audits _
  send_to-audits (some (o, url)) text t c w = length-append w.audits _

  send_alert-audits :
      (c : AlertContext) (w : Board)
      → length (send_alert p (lit "FRIGATE_DETECTION") c w).1.audits ≡ length w.audits + 1
  unfolding send_alert find_first text_eq lit type_text
  send_alert-audits c w =
      send_to-audits (webhook_of (find_org c.org_id w.orgs)) (lit "FRIGATE_DETECTION")
        frigate_detection c w

  alert_detection-audits :
      (d : Option FrigateEvent) (org : ℕ) (w : Board)
      → length (alert_detection p d org w).audits ≡ length w.audits + (if is_some d then 1 else 0)
  alert_detection-audits none org w = omega arith
  alert_detection-audits (some e) org w = send_alert-audits (detection_context org e) w

  -- A report for an organisation is refused where the organisation is missing, and where it has a secret
  -- that is not empty and that the request does not give. Otherwise it is accepted; it then adds one
  -- entry to the audit log if its type is `new` and its event (`after`, or else `before`) is there and
  -- not a false positive, and none if not.
  pub handle_webhook-audits :
      (org : ℕ) (f : FrigatePayload) (incoming : Option Text) (w : Board)
      → let result = handle_webhook p org f incoming w in
        ((find_org org w.orgs ≡ none) × (result ≡ err org_missing))
        ⊎ ((o : AlertOrg) × (find_org org w.orgs ≡ some o)
            × (((lacks_secret o.frigate_webhook_secret incoming ≡ true)
                  × (result ≡ err invalid_secret))
                ⊎ ((lacks_secret o.frigate_webhook_secret incoming ≡ false)
                    × ((w' : Board) × (result ≡ ok w')
                        × (length w'.audits
                            ≡ length w.audits + detections f.type f.after f.before)))))
  unfolding handle_webhook
  handle_webhook-audits org f incoming w = elim (Option-cases (find_org org w.orgs)) [
    | inl e ↦ inl (e, rw (e, handle_webhook) refl)
    | inr (o, e) ↦ elim (Bool-cases (lacks_secret o.frigate_webhook_secret incoming)) [
      | inl g ↦
          inr (o, e, inl (g, rw (e, handle_webhook) (rw (refused o.frigate_webhook_secret g) refl)))
      | inr t ↦ inr (
        o,
        e,
        inr (
          t,
          (
            alert_detection p (alerted f) org w,
            rw (e, handle_webhook) (rw (given o.frigate_webhook_secret t) refl),
            alert_detection-audits (alerted f) org w
                ∙ ap (λ n. length w.audits + n) (detections-alerted f),
          ),
        ),
      )
    ]
  ]
    where
      refused :
          (secret : Option Text)
          → lacks_secret secret incoming ≡ true
          → secret_ok secret incoming ≡ false
      refused secret g = rw (lacks_secret-secret_ok secret incoming, g) refl

      given :
          (secret : Option Text)
          → lacks_secret secret incoming ≡ false
          → secret_ok secret incoming ≡ true
      given secret g = rw (lacks_secret-secret_ok secret incoming, g) refl
