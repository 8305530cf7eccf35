-- ===== src/Webhook.antt =====
-- modules/webhook/webhook.service.ts and queue/webhook.processor.ts. The requests of the package
-- axios, the validator of addresses and the clock of the database are parameters.
pub mod Logged
use nft_tracker.Prelude.{
  ℕ, suc, ◌+◌, ◌≡◌, refl, sym, ap, ◌∙◌, Text, text, Option, none, some, Bool, true, false, not,
  List, [], ◌∷◌, ◌++◌, ◌==◌, ◌&&◌, leb, or_else, select, find_one, upsert_row, upserted,
  find_one-upsert_row, if◌then◌else◌, arith, Bool-cases, inl, inr, ◌⊎◌,
}
use nft_tracker.Store.Entities.{Json}
use nft_tracker.Store.World.{Error, message, internal_error, entity_not_found}
use nft_tracker.Store.Exec.{Result, ok, err}
use nft_tracker.Action.{Action, pure, throw, lift, gets, modify, ◌>>=◌, ◌>>◌}

pub data Method : Type 0 where
  post put get delete : Method

pub record WebhookRequest : Type 0 where
  pub id : Option ℕ
  pub url : Text
  pub headers : Option Json
  pub body : Json
  pub method : Option Method
  pub timeout : Option ℕ
  pub meta : Option Json
  pub client_id : Option Text
  pub retry : Option Bool

-- A row of the table `webhook_attempt`; `reply` is the column `data`.
pub record WebhookAttempt : Type 0 where
  pub id : ℕ
  pub url : Text
  pub headers : Option Json
  pub body : Json
  pub method : Method
  pub timeout : ℕ
  pub meta : Option Json
  pub client_id : Option Text
  pub code : ℕ
  pub reply : Option Json
  pub retry : Bool

pub record Webhooks : Type 0 where
  pub attempts : List WebhookAttempt
  -- the jobs `RetryWebhook`, by the attempts that they carry
  pub queue : List ℕ
  pub ticks : ℕ

pub data Reply : Type 0 where
  responded : ℕ → Option Json → Reply
  -- an `AxiosError`, with the status and the data of a response, if there was one
  axios_error : Option ℕ → Option Json → Reply
  failed : Error → Reply

pub record WebhookEnv : Type 0 where
  pub is_url : Text → Bool
  pub uuid : ℕ → ℕ
  pub request : ℕ → WebhookAttempt → Reply
  -- `updated_at < NOW() - INTERVAL '1 minute'`
  pub is_stale : ℕ → WebhookAttempt → Bool

-- the error that axios throws
abbrev pub request_failed : Error
request_failed = message (text "AxiosError")

abbrev pub not_zero_or : Option ℕ → ℕ → ℕ
not_zero_or none d = d
not_zero_or (some n) d = if n == 0 then d else n

-- the request with its defaults, as a row without an answer
abbrev pub completed : ℕ → WebhookRequest → WebhookAttempt
completed id r = record {
  id = id;
  url = r.url;
  headers = r.headers;
  body = r.body;
  method = or_else r.method post;
  timeout = not_zero_or r.timeout 30000;
  meta = r.meta;
  client_id = r.client_id;
  code = 0;
  reply = none;
  retry = or_else r.retry true;
}

abbrev pub is_attempt : ℕ → WebhookAttempt → Bool
is_attempt id a = a.id == id

-- what is undefined in a `save` leaves the column of a row that is there alone
abbrev or_old : {A : Type 0} → Option A → Option A → Option A
or_old none old = old
or_old (some a) old = some a

abbrev pub saved_over : WebhookAttempt → ℕ → Option Json → WebhookAttempt → WebhookAttempt
saved_over webhook code reply old = record webhook {
  headers = or_old webhook.headers old.headers;
  meta = or_old webhook.meta old.meta;
  client_id = or_old webhook.client_id old.client_id;
  code = code;
  reply = or_old reply old.reply;
}

abbrev pub saved_new : WebhookAttempt → ℕ → Option Json → WebhookAttempt
saved_new webhook code reply = record webhook { code = code; reply = reply }

abbrev found_or_fail : Option WebhookAttempt → Action Webhooks WebhookAttempt
found_or_fail none = throw (entity_not_found (text "WebhookAttemptEntity"))
found_or_fail (some a) = pure a

unfoldable pub log_attempt : WebhookAttempt → ℕ → Option Json → Action Webhooks WebhookAttempt
log_attempt webhook code reply = do
  modify (λ s. record s {
    attempts =
        upsert_row (is_attempt webhook.id) (saved_over webhook code reply)
          (saved_new webhook code reply) s.attempts;
  })
  found ← gets (λ s. find_one (is_attempt webhook.id) s.attempts)
  found_or_fail found

abbrev pub ask : {A : Type 0} → (ℕ → A) → Action Webhooks A
ask answer s = (ok (answer s.ticks), record s { ticks = suc s.ticks })

unfoldable pub handle_reply : WebhookAttempt → Reply → Action Webhooks WebhookAttempt
handle_reply webhook (responded code reply) = log_attempt webhook code reply
handle_reply webhook (axios_error status reply) =
    log_attempt webhook (not_zero_or status 500) reply >> throw request_failed
handle_reply webhook (failed e) = throw e

module _ (env : WebhookEnv) where
  abbrev pub id_or_uuid : Option ℕ → Action Webhooks ℕ
  id_or_uuid none = ask env.uuid
  id_or_uuid (some id) = pure id

  unfoldable pub send_valid : WebhookRequest → Action Webhooks WebhookAttempt
  send_valid r = do
    id ← id_or_uuid r.id
    reply ← ask (λ tick. env.request tick (completed id r))
    handle_reply (completed id r) reply

  unfoldable pub send : WebhookRequest → Action Webhooks WebhookAttempt
  send r = if env.is_url r.url then send_valid r else throw (message (text "Invalid URL"))

  abbrev pub again : WebhookAttempt → WebhookRequest
  again a = record {
    id = some a.id;
    url = a.url;
    headers = a.headers;
    body = a.body;
    method = some a.method;
    timeout = some a.timeout;
    meta = a.meta;
    client_id = a.client_id;
    retry = some a.retry;
  }

  abbrev pub retry_found : Option WebhookAttempt → Action Webhooks Unit
  retry_found none = throw (internal_error (text "Webhook not found"))
  retry_found (some a) = if leb 400 a.code then send (again a) >> pure tt else pure tt

  unfoldable pub retry : ℕ → Action Webhooks Unit
  retry id = do webhook ← gets (λ s. find_one (is_attempt id) s.attempts); retry_found webhook

  unfoldable pub is_failed : ℕ → WebhookAttempt → Bool
  is_failed tick a = leb 400 a.code && env.is_stale tick a && a.retry

  abbrev enqueue_all : List WebhookAttempt → List ℕ → List ℕ
  enqueue_all [] queue = queue
  enqueue_all (a ∷ more) queue = enqueue_all more (queue ++ a.id ∷ [])

  unfoldable pub sync_webhook_failed_handler : Action Webhooks Unit
  unfolding is_failed
  sync_webhook_failed_handler s = (
    ok tt,
    record s {
      queue = enqueue_all (select (is_failed s.ticks) s.attempts) s.queue;
      ticks = suc s.ticks;
    },
  )
