-- ===== src/Indexer/Webhooks/Attempts.antt =====
-- What a registration promises and which requests a delivery sends (indexer/src/api.ts,
-- indexer/src/events.ts).
use bc_forge.Common.{
  ℕ, ◌≡◌, refl, ◌∙◌, ap, Bool, true, false, not, Option, none, some, List, [], ◌∷◌, ◌++◌, String,
  arith, eq_iff, if◌then◌else◌, ◌===◌, ===_refl, ◌&&◌, all, sym, Bool-cases, any, find, inl, inr,
  length,
}
use bc_forge.Indexer.Webhooks.{
  Url, WebhookTarget, Registered, bad_request, created, is_accepted, find_target, upsert_webhook,
  register_parsed, register_webhook, Fetched, is_ok, Log, attempt_failed, recovered,
  delivery_failed, Delivery, deliver_from, deliver_webhook, deliver_indexer_event_to_webhooks,
}

find_target_end :
    (url : String) (t : WebhookTarget) (targets : List WebhookTarget)
    → t.url ≡ url
    → find_target url targets ≡ none
    → find_target url (targets ++ t ∷ []) ≡ some t
find_target_end url t [] e h = ground (arith, eq_iff t.url url)
find_target_end url t (s ∷ targets) e h =
    ground (arith, eq_iff s.url url, find_target_end url t targets e)

upsert_again :
    (fresh other url : String) (targets : List WebhookTarget) (found : Option WebhookTarget)
    → find_target url targets ≡ found
    → (let r = upsert_webhook fresh url targets found in
        upsert_webhook other url r.1 (find_target url r.1))
      ≡ upsert_webhook fresh url targets found
upsert_again fresh other url targets (some t) h = rw h refl
upsert_again fresh other url targets none h =
    rw (find_target_end url (record { id = fresh; url = url }) targets refl h) refl

parsed_again :
    (fresh other : String) (targets : List WebhookTarget) (u : Option Url)
    → register_parsed other (register_parsed fresh targets u).1 u ≡ register_parsed fresh targets u
parsed_again fresh other targets none = refl
parsed_again fresh other targets (some u) = elim (Bool-cases (is_accepted u)) [
  | inl e ↦ rw e (upsert_again fresh other u.href targets (find_target u.href targets) refl)
  | inr e ↦ rw e refl
]

-- To register the same URL again changes nothing, and is answered as the first time.
pub register_webhook_again :
    (parse_url : String → Option Url) (fresh other : String) (body : Option String)
    (targets : List WebhookTarget)
    → register_webhook parse_url other body (register_webhook parse_url fresh body targets).1
      ≡ register_webhook parse_url fresh body targets
unfolding register_webhook
register_webhook_again parse_url fresh other none targets = refl
register_webhook_again parse_url fresh other (some raw) targets =
    parsed_again fresh other targets (parse_url raw)

-- The deliveries with a request to a URL.
abbrev pub is_posted : String → String → Delivery → Bool
is_posted url event d = any (λ p. p.0 === url && p.1 === event) d.posts

abbrev pub is_failure : Log → Bool
is_failure (delivery_failed id) = true
is_failure (attempt_failed id n) = false
is_failure (recovered id) = false

-- A delivery sends one request if the first is answered with success and two otherwise, all of them
-- to the URL of the target with the event, and logs a failed delivery exactly if neither was
-- answered with success.
pub deliver_webhook-attempts :
    (fetch : String → String → ℕ → Fetched) (target : WebhookTarget) (event : String)
    → let d = deliver_webhook fetch target event in
      (length d.posts ≡ (if is_ok (fetch target.url event 1) then 1 else 2))
      × (all (λ p. p.0 === target.url && p.1 === event) d.posts ≡ true)
      × (any is_failure d.logs
          ≡ (not (is_ok (fetch target.url event 1)) && not (is_ok (fetch target.url event 2))))
unfolding deliver_webhook deliver_from
deliver_webhook-attempts fetch target event = ground (arith, ===_refl target.url, ===_refl event)

deliver_webhook-is_posted :
    (fetch : String → String → ℕ → Fetched) (target : WebhookTarget) (event : String)
    → is_posted target.url event (deliver_webhook fetch target event) ≡ true
unfolding deliver_webhook deliver_from
deliver_webhook-is_posted fetch target event = ground (arith, ===_refl target.url, ===_refl event)

deliver_all-is_posted :
    (fetch : String → String → ℕ → Fetched) (event url : String) (targets : List WebhookTarget)
    (t : WebhookTarget)
    → find_target url targets ≡ some t
    → any (is_posted url event) (deliver_indexer_event_to_webhooks fetch targets event) ≡ true
unfolding deliver_indexer_event_to_webhooks
deliver_all-is_posted fetch event url [] t h = ground arith
deliver_all-is_posted fetch event url (s ∷ targets) t h = elim (Bool-cases (s.url === url)) [
  | inl e ↦ rw (sym ((eq_iff s.url url).0 e), deliver_webhook-is_posted fetch s event) refl
  | inr e ↦
      let later : find_target url targets ≡ some t = ground arith in
      let rest = deliver_all-is_posted fetch event url targets t later in
      elim (Bool-cases (is_posted url event (deliver_webhook fetch s event))) [
        | inl f ↦ rw f refl
        | inr f ↦ rw (f, rest) refl
      ]
]

abbrev url_or : String → Option WebhookTarget → String
url_or url none = url
url_or url (some t) = t.url

find_target_url :
    (url : String) (targets : List WebhookTarget) (t : WebhookTarget)
    → find_target url targets ≡ some t
    → t.url ≡ url
find_target_url url [] t h = ground arith
find_target_url url (s ∷ targets) t h = elim (Bool-cases (s.url === url)) [
  | inl e ↦
      let same : some s ≡ some t = sym (rw (e, find) refl) ∙ h in
      sym (ap (λ o. url_or url o) same) ∙ (eq_iff s.url url).0 e
  | inr e ↦
      let later : find_target url targets ≡ some t = ground arith in
      find_target_url url targets t later
]

abbrev row_of : Registered → Option WebhookTarget
row_of (created t) = some t
row_of (bad_request m) = none

upserted_found :
    (fresh url : String) (targets : List WebhookTarget) (found : Option WebhookTarget)
    (row : WebhookTarget)
    → find_target url targets ≡ found
    → (upsert_webhook fresh url targets found).0 ≡ created row
    → find_target url (upsert_webhook fresh url targets found).1 ≡ some row
upserted_found fresh url targets (some t) row h e = h ∙ ap row_of e
upserted_found fresh url targets none row h e =
    find_target_end url (record { id = fresh; url = url }) targets refl h ∙ ap row_of e

parsed_found :
    (fresh : String) (targets : List WebhookTarget) (u : Option Url) (row : WebhookTarget)
    → (register_parsed fresh targets u).0 ≡ created row
    → find_target row.url (register_parsed fresh targets u).1 ≡ some row
parsed_found fresh targets none row e = ground arith
parsed_found fresh targets (some u) row e = elim (Bool-cases (is_accepted u)) [
  | inl a ↦
      let up = upsert_webhook fresh u.href targets (find_target u.href targets) in
      let done : register_parsed fresh targets (some u) ≡ up = rw a refl in
      let f =
        upserted_found fresh u.href targets (find_target u.href targets) row refl
          (sym (ap (λ r. r.0) done) ∙ e) in
      ap (λ r. find_target row.url r.1) done
      ∙ ap (λ x. find_target x up.1) (find_target_url u.href up.1 row f)
      ∙ f
  | inr a ↦ absurd (ground arith)
]

-- Once a registration is answered with a row, every event that is delivered goes to the URL of that
-- row too, whatever the other targets answer.
pub register_webhook-delivers :
    (parse_url : String → Option Url) (fresh : String) (body : Option String)
    (targets : List WebhookTarget) (row : WebhookTarget) (fetch : String → String → ℕ → Fetched)
    (event : String)
    → (register_webhook parse_url fresh body targets).0 ≡ created row
    → any (is_posted row.url event) (
        deliver_indexer_event_to_webhooks fetch
          (register_webhook parse_url fresh body targets).1
          event)
      ≡ true
unfolding register_webhook
register_webhook-delivers parse_url fresh none targets row fetch event e = ground arith
register_webhook-delivers parse_url fresh (some raw) targets row fetch event e =
    deliver_all-is_posted fetch event row.url (register_parsed fresh targets (parse_url raw)).1 row
      (parsed_found fresh targets (parse_url raw) row e)
