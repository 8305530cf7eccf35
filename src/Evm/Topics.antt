-- ===== src/Evm/Topics.antt =====
-- modules/blockchain/evm/evm-events.services.ts: which logs are read, and what is read off them. The
-- hash of the event's name and the decoding of a log by the package ethers are parameters.
pub mod Pool
use nft_tracker.Prelude.{
  ℕ, ◌≡◌, refl, ap, ◌∙◌, Text, Option, none, some, Bool, true, false, not, List, [], ◌∷◌, ◌==◌,
  ◌===◌, ◌&&◌, ◌||◌, map, any, select, to_lower, upsert_row, Bool-cases, inl, inr, eq_of_===, arith,
}
use nft_tracker.Store.Entities.{Contract}
use nft_tracker.Transfers.{TokenHistoryParams}
use nft_tracker.Evm.Logs.{Log}
use nft_tracker.Evm.Format.{Value, Values, item, string, big, from}

-- The key `<topic>:<chain>:<address>`.
pub record TopicKey : Type 0 where
  pub topic : Text
  pub chain_id : ℕ
  pub address : Text

abbrev pub same_key : TopicKey → TopicKey → Bool
same_key k l = l.topic === k.topic && l.chain_id == k.chain_id && l.address === k.address

unfoldable pub get_topic_key : Text → Text → ℕ → TopicKey
get_topic_key topic address chain_id = record {
  topic = topic;
  chain_id = chain_id;
  address = to_lower address;
}

abbrev pub has_topic : List TopicKey → TopicKey → Bool
has_topic pool k = any (same_key k) pool

abbrev pub add_topic : TopicKey → List TopicKey → List TopicKey
add_topic k = upsert_row (same_key k) (λ old. k) k

-- the loop of `syncLocalCache`, over the contracts that the table has
unfoldable pub sync_local_cache : Text → List Contract → List TopicKey → List TopicKey
sync_local_cache event_topic [] pool = pool
sync_local_cache event_topic (c ∷ cs) pool =
    sync_local_cache event_topic cs
      (add_topic (get_topic_key event_topic c.address c.chain_id) pool)

pub record LogDescription : Type 0 where
  pub signature : Text
  pub name : Text
  pub topic : Text
  pub args : Values

pub record LogParsed : Type 0 where
  pub address : Text
  pub block_hash : Text
  pub block_number : ℕ
  pub transaction_hash : Text
  pub transaction_index : ℕ
  pub signature : Text
  pub name : Text
  pub topics : List Text
  pub topic : Text
  pub from : Value
  pub to : Value
  pub token_id : Value
  pub timestamp : ℕ

pub record Decoder : Type 0 where
  pub event_topic : Text
  pub is_hex_string : Text → Bool
  -- `tryParseLog`
  pub parse_log : List Text → Text → Option LogDescription

-- a log without topics has no key
abbrev pub is_known : List TopicKey → ℕ → Text → List Text → Bool
is_known pool chain_id address [] = false
is_known pool chain_id address (topic ∷ topics) =
    has_topic pool (get_topic_key topic address chain_id)

unfoldable pub is_read : List TopicKey → ℕ → Log → Bool
unfolding get_topic_key
is_read pool chain_id event = not event.removed && is_known pool chain_id event.address event.topics

-- `!logParse || Number(logParse?.args?.length ?? 0) < 3`
abbrev parsed_args : (Text → Bool) → ℕ → Log → LogDescription → Values → Option LogParsed
parsed_args is_hex timestamp event d (item a (item b (item c rest))) = some (record {
  address = event.address;
  block_hash = event.block_hash;
  block_number = event.block_number;
  transaction_hash = event.transaction_hash;
  transaction_index = event.transaction_index;
  signature = d.signature;
  name = d.name;
  topics = event.topics;
  topic = d.topic;
  from = from is_hex a;
  to = from is_hex b;
  token_id = from is_hex c;
  timestamp = timestamp;
})
parsed_args is_hex timestamp event d _ = none

module _ (decoder : Decoder) where
  abbrev parsed_log : ℕ → Log → Option LogDescription → Option LogParsed
  parsed_log timestamp event none = none
  parsed_log timestamp event (some d) = parsed_args decoder.is_hex_string timestamp event d d.args

  unfoldable pub log_parsed : ℕ → Log → Option LogParsed
  unfolding from
  log_parsed timestamp event =
      parsed_log timestamp event (decoder.parse_log event.topics event.bytes)

abbrev pub not_null : {A : Type 0} → List (Option A) → List A
not_null [] = []
not_null (none ∷ xs) = not_null xs
not_null (some x ∷ xs) = x ∷ not_null xs

unfoldable pub process_logs : Decoder → List TopicKey → ℕ → List Log → ℕ → List LogParsed
process_logs decoder pool chain_id logs timestamp =
    not_null (map (log_parsed decoder timestamp) (select (is_read pool chain_id) logs))

-- The values of a `Transfer` by its signature: two addresses and a number.
abbrev text_of : Value → Text
text_of (string s) = s
text_of _ = []

abbrev number_of : Value → ℕ
number_of (big n) = n
number_of _ = 0

-- `{ chainId, ...log }`, with `args` spread out
abbrev pub history_params : ℕ → LogParsed → TokenHistoryParams
history_params chain_id log = record {
  address = log.address;
  chain_id = chain_id;
  from_address = text_of log.from;
  to_address = text_of log.to;
  token_id = number_of log.token_id;
  block_number = log.block_number;
  transaction_hash = log.transaction_hash;
  transaction_index = log.transaction_index;
  timestamp = log.timestamp;
}

-- A contract of the table, on this chain and at this address in any case of the letters.
abbrev pub tracks : ℕ → Text → Contract → Bool
tracks chain_id address c = c.chain_id == chain_id && to_lower c.address === to_lower address
