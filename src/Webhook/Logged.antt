-- ===== src/Webhook/Logged.antt =====
-- What an attempt to send leaves in the table.
use nft_tracker.Prelude.{ℕ, suc, ◌≡◌, Option, none, some, List, find_one, upserted}
use nft_tracker.Store.Entities.{Json}
use nft_tracker.Store.Exec.{Result, ok, err}
use nft_tracker.Webhook.{
  WebhookAttempt, Webhooks, WebhookEnv, Reply, responded, axios_error, failed, request_failed,
  not_zero_or, is_attempt, saved_over, saved_new,
}

-- The row that an answer makes of what the table had under the number.
abbrev pub row_after : WebhookAttempt → ℕ → Option Json → List WebhookAttempt → WebhookAttempt
row_after webhook code reply before =
    upserted (saved_over webhook code reply) (saved_new webhook code reply)
      (find_one (is_attempt webhook.id) before)

-- What is returned or thrown, and what the table has under the number of the attempt.
abbrev pub Logged :
    WebhookAttempt
    → Reply
    → List WebhookAttempt
    → Result WebhookAttempt
    → List WebhookAttempt
    → Type 0
Logged webhook (responded code reply) before r attempts =
    (r ≡ ok (row_after webhook code reply before))
    × (find_one (is_attempt webhook.id) attempts ≡ some (row_after webhook code reply before))
Logged webhook (axios_error status reply) before r attempts =
    (r ≡ err request_failed)
    × (find_one (is_attempt webhook.id) attempts
        ≡ some (row_after webhook (not_zero_or status 500) reply before))
Logged webhook (failed e) before r attempts = (r ≡ err e) × (attempts ≡ before)

-- the number of an attempt, and the tick at which the request goes out
abbrev pub id_of : WebhookEnv → Option ℕ → Webhooks → ℕ
id_of env none s = env.uuid s.ticks
id_of env (some id) s = id

abbrev pub sent_at : Option ℕ → Webhooks → ℕ
sent_at none s = suc s.ticks
sent_at (some id) s = s.ticks
