-- ===== src/Indexer/Webhooks.antt =====
-- The webhooks of the indexer: their registration (indexer/src/api.ts, `/webhooks`) and the delivery
-- of an event to them (indexer/src/events.ts). `URL`, `fetch`, the ids of the database and
-- `JSON.stringify` are parameters; the ten seconds of a request are left out.
pub mod Attempts
use bc_forge.Common.{
  ℕ, zero, suc, ◌+◌, Bool, true, false, not, ◌&&◌, ◌||◌, Option, none, some, List, [], ◌∷◌, ◌++◌,
  String, if◌then◌else◌, ◌===◌, leb, map, any, find, keep, is_nonempty,
}

-- What `new URL(text)` gives: the fields the code reads, and `toString`.
pub record Url : Type 0 where
  pub protocol : String
  pub username : String
  pub password : String
  pub href : String

pub record WebhookTarget : Type 0 where
  pub id : String
  pub url : String

pub data Registered : Type 0 where
  bad_request : String → Registered
  created : WebhookTarget → Registered

-- A secure URL that carries no credentials.
abbrev pub is_accepted : Url → Bool
is_accepted u =
    u.protocol === "https:" && not (is_nonempty u.username) && not (is_nonempty u.password)

abbrev pub find_target : String → List WebhookTarget → Option WebhookTarget
find_target url targets = find (λ t. t.url === url) targets

-- `webhook.upsert` with an empty `update`, where `fresh` is the id of a new row.
abbrev pub upsert_webhook :
    String → String → List WebhookTarget → Option WebhookTarget → Registered × List WebhookTarget
upsert_webhook fresh url targets (some t) = (created t, targets)
upsert_webhook fresh url targets none =
    let t : WebhookTarget = record { id = fresh; url = url } in (created t, targets ++ t ∷ [])

-- The answer to a parsed URL, of which there is none where `new URL` throws.
abbrev pub register_parsed :
    String → List WebhookTarget → Option Url → Registered × List WebhookTarget
register_parsed fresh targets none = (bad_request "url must be an HTTPS URL", targets)
register_parsed fresh targets (some u) =
    if is_accepted u
    then upsert_webhook fresh u.href targets (find_target u.href targets)
    else (bad_request "url must be an HTTPS URL without embedded credentials", targets)

-- `POST /webhooks` with the `url` of the body, if it is a text.
unfoldable pub register_webhook :
    (String → Option Url)
    → String
    → Option String
    → List WebhookTarget
    → Registered × List WebhookTarget
register_webhook parse_url fresh none targets = (bad_request "url must be an HTTPS URL", targets)
register_webhook parse_url fresh (some raw) targets = register_parsed fresh targets (parse_url raw)

pub data Removed : Type 0 where
  removed : Removed
  webhook_not_found : Removed

-- `DELETE /webhooks/:id`
unfoldable pub delete_webhook : String → List WebhookTarget → Removed × List WebhookTarget
delete_webhook id targets =
    if any (λ t. t.id === id) targets
    then (removed, keep (λ t. not (t.id === id)) targets)
    else (webhook_not_found, targets)

-- The answer to a request: a status, or a request that fails.
pub data Fetched : Type 0 where
  status : ℕ → Fetched
  rejected : String → Fetched

-- `response.ok`
abbrev pub is_ok : Fetched → Bool
is_ok (status n) = leb 200 n && leb n 299
is_ok (rejected e) = false

-- The entries of the log, with the id of the target.
pub data Log : Type 0 where
  recovered : String → Log
  attempt_failed : String → ℕ → Log
  delivery_failed : String → Log

-- One delivery: the requests that were sent, with their URL and body, and the log.
pub record Delivery : Type 0 where
  pub posts : List (String × String)
  pub logs : List Log

abbrev pub begun : String × String → List Log → Delivery → Delivery
begun post logs d = record { posts = post ∷ d.posts; logs = logs ++ d.logs }

-- The attempts from the number `attempt`, `left` of them; `fetch` is asked by URL, body and attempt.
unfoldable pub deliver_from :
    (String → String → ℕ → Fetched) → WebhookTarget → String → ℕ → ℕ → Delivery
deliver_from fetch target event zero attempt = record {
  posts = [];
  logs = delivery_failed target.id ∷ [];
}
deliver_from fetch target event (suc left) attempt =
    let rest = deliver_from fetch target event left (suc attempt) in
    if is_ok (fetch target.url event attempt)
    then record {
      posts = (target.url, event) ∷ [];
      logs = if leb attempt 1 then [] else recovered target.id ∷ [];
    }
    else begun (target.url, event) (attempt_failed target.id attempt ∷ []) rest

-- `deliverWebhook`
unfoldable pub deliver_webhook : (String → String → ℕ → Fetched) → WebhookTarget → String → Delivery
unfolding deliver_from
deliver_webhook fetch target event = deliver_from fetch target event 2 1

-- `deliverIndexerEventToWebhooks`, one delivery for each target; their requests may interleave.
unfoldable pub deliver_indexer_event_to_webhooks :
    (String → String → ℕ → Fetched) → List WebhookTarget → String → List Delivery
unfolding deliver_webhook
deliver_indexer_event_to_webhooks fetch targets event =
    map (λ t. deliver_webhook fetch t event) targets
