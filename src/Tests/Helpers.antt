-- ===== src/Tests/Helpers.antt =====
-- The theorems on the pages, the schedules, the webhooks and the lookup of a token,
-- applied.
use nft_tracker.Prelude.{
  ℕ, ◌-◌, ◌*◌, ◌≡◌, refl, ap, Text, text, none, true, List, [], ◌∷◌, ◌++◌, ◌===◌, if◌then◌else◌,
  not, select, any, take, arith,
}
use nft_tracker.Store.Entities.{null}
use nft_tracker.Iterator.{
  Page, IsPaged, drop, async_paginate_raw_and_entities, async_paginate_raw_and_entities_complete,
}
use nft_tracker.Webhook.{WebhookRequest, Webhooks, WebhookEnv, axios_error}
use nft_tracker.Webhook.Logged
use nft_tracker.Repeat
use nft_tracker.Repeat.{
  Cron, every_minute, Repeatable, RepeatQueue, IsRepeatQueue, schedule_repeatable_job,
}
use nft_tracker.Repeat.Settled.{schedule_repeatable_job_twice}
use nft_tracker.Tokens
use nft_tracker.Tokens.Lookup
use nft_tracker.Tests.State.{small_env, small_world}

-- three rows, two on a page
abbrev three_rows : List ℕ
three_rows = 10 ∷ 20 ∷ 30 ∷ []

abbrev small_pages : ℕ → Page ℕ
small_pages page = record {
  items = take 2 (drop ((page - 1) * 2) three_rows);
  current_page = page;
  total_pages = 2;
}

small_pages-IsPaged : IsPaged small_pages 2 three_rows
small_pages-IsPaged = record {
  items = λ page. ap (λ k. take 2 (drop (k * 2) three_rows)) (omega arith);
  current_page = λ page. refl;
  total_pages = λ page. omega arith;
}

async_paginate_raw_and_entities_complete_example :
    async_paginate_raw_and_entities small_pages 3 ≡ three_rows
async_paginate_raw_and_entities_complete_example =
    async_paginate_raw_and_entities_complete small_pages 2 three_rows small_pages-IsPaged
      (omega arith) 3 (omega arith)

-- the first request fails without a response
abbrev small_webhooks : WebhookEnv
small_webhooks = record {
  is_url = λ url. true;
  uuid = λ tick. 70;
  request = λ tick webhook. axios_error none none;
  is_stale = λ tick a. true;
}

abbrev small_request : WebhookRequest
small_request = record {
  id = none;
  url = text "https://hook";
  headers = none;
  body = null;
  method = none;
  timeout = none;
  meta = none;
  client_id = none;
  retry = none;
}

abbrev no_attempts : Webhooks
no_attempts = record { attempts = []; queue = []; ticks = 0 }

-- a token that the table does not have
abbrev small_nft_request : Tokens.NftByTokenRequest
small_nft_request = record {
  contract_address = text "0xAB";
  chain_id = 1;
  token_id = 999;
  refresh_cache = true;
}

-- a queue as the list of its repeatable jobs, with the number and the expression for a key
abbrev small_key : Text → Text → Cron → Text
small_key name id every_minute = id ++ text ":m"
small_key name id cron = id

abbrev small_repeats : RepeatQueue (List Repeatable)
small_repeats = record {
  get_repeatable_jobs = λ js. js;
  remove_repeatable_by_key = λ key js. select (λ j. not (j.key === key)) js;
  add = λ name id cron js.
      if any (λ j. j.key === small_key name id cron) js
      then js
      else js ++ record { id = id; key = small_key name id cron } ∷ [];
}

small_repeats-IsRepeatQueue : IsRepeatQueue small_repeats small_key
small_repeats-IsRepeatQueue = record {
  remove_lem = λ key js. refl;
  add_lem = λ name id cron js. refl;
}

-- one schedule, with another expression
abbrev old_schedule : List Repeatable
old_schedule = record { id = text "s"; key = text "s" } ∷ []

schedule_repeatable_job_twice_example :
    select (Repeat.has_id (text "s")) (
      schedule_repeatable_job small_repeats
        (text "n")
        (text "s")
        every_minute
        (schedule_repeatable_job small_repeats (text "n") (text "s") every_minute old_schedule))
    ≡ record { id = text "s"; key = text "s:m" } ∷ []
schedule_repeatable_job_twice_example =
    schedule_repeatable_job_twice small_repeats small_key small_repeats-IsRepeatQueue (text "n")
      (text "s") every_minute old_schedule ((λ e. refl), tt)

find_by_token-Answers_example :
    Lookup.Answer small_env small_nft_request small_world.db
      (Tokens.find_by_token small_env small_nft_request small_world).0
    × Lookup.SameView small_env small_world
        (Tokens.find_by_token small_env small_nft_request small_world).1
find_by_token-Answers_example = Lookup.find_by_token-Answers small_env small_nft_request small_world
