-- ===== src/Store/Tables.antt =====
-- What the repositories do to the tables. A `save` fills in the defaults of the entity's columns
-- (base.entity.ts, tokens/entities), and the transformer `lowercase` (database.helpers.ts) is
-- applied to the addresses on their way in. What comes from outside is `Env`.
use nft_tracker.Prelude.{
  ℕ, Text, Option, none, some, Bool, false, List, [], ◌∷◌, ◌++◌, ◌==◌, ◌===◌, ◌&&◌, ltb, to_lower,
  update_where, upsert_row,
}
use nft_tracker.Store.Entities.{
  TokenJob, TokenJobType, TokenJobStatus, Token, TokenAsset, Contract, TokenTransfer, same_status,
  same_type,
}
use nft_tracker.Store.World.{Db}
use nft_tracker.Store.Env.{Env}
use nft_tracker.Store.Exec.{Exec, Connection, pure, ask, write, ◌>>=◌, ◌>>◌}

-- The columns that the services pass to `save` for a job.
pub record JobValues : Type 0 where
  pub address : Option Text
  pub chain_id : Option ℕ
  pub tokens_ids : List ℕ
  pub tokens_uris : Option (List Text)
  pub asset_uri : Option Text
  pub execute_at : ℕ
  pub type : TokenJobType

abbrev pub lowercase : Option Text → Option Text
lowercase none = none
lowercase (some s) = some (to_lower s)

-- a row of `tokens_jobs` with the defaults of its columns; every caller saves it as created
unfoldable pub job_row : ℕ → ℕ → JobValues → TokenJob
job_row id now v = record {
  id = id;
  created_at = now;
  address = lowercase v.address;
  chain_id = v.chain_id;
  tokens_ids = v.tokens_ids;
  tokens_uris = v.tokens_uris;
  asset_uri = v.asset_uri;
  execute_at = some v.execute_at;
  complete_at = none;
  failed_at = none;
  started_at = none;
  status = TokenJobStatus.created;
  type = v.type;
  attempts = 0;
}

unfoldable pub insert_job : TokenJob → Db → Db
insert_job j d = record d { jobs = d.jobs ++ j ∷ [] }

unfoldable pub update_jobs : (TokenJob → Bool) → (TokenJob → TokenJob) → Db → Db
update_jobs p f d = record d { jobs = update_where p f d.jobs }

unfoldable pub update_tokens : (Token → Bool) → (Token → Token) → Db → Db
update_tokens p f d = record d { tokens = update_where p f d.tokens }

unfoldable pub insert_transfer : TokenTransfer → Db → Db
insert_transfer t d = record d { transfers = d.transfers ++ t ∷ [] }

unfoldable pub insert_contract : Contract → Db → Db
insert_contract c d = record d { contracts = d.contracts ++ c ∷ [] }

unfoldable pub update_contracts : (Contract → Bool) → (Contract → Contract) → Db → Db
update_contracts p f d = record d { contracts = update_where p f d.contracts }

unfoldable pub upsert_token_row : (Token → Bool) → (Token → Token) → Token → Db → Db
upsert_token_row p f t d = record d { tokens = upsert_row p f t d.tokens }

unfoldable pub upsert_asset_row :
    (TokenAsset → Bool) → (TokenAsset → TokenAsset) → TokenAsset → Db → Db
upsert_asset_row p f a d = record d { assets = upsert_row p f a d.assets }

-- In the criteria of an update a value that is null or undefined compares as NULL: no row has it.
abbrev pub text_is : Option Text → Text → Bool
text_is none t = false
text_is (some s) t = to_lower s === t

abbrev pub number_is : Option ℕ → ℕ → Bool
number_is none n = false
number_is (some m) n = m == n

-- The criteria `{ address, chainId, tokenId }` on tokens; the transformer lowers the address.
abbrev pub has_token_key : Option Text → Option ℕ → Option ℕ → Token → Bool
has_token_key address chain_id token_id t =
    text_is address t.address && number_is chain_id t.chain_id && number_is token_id t.token_id

abbrev pub has_id : ℕ → TokenJob → Bool
has_id id j = j.id == id

-- `executeAt: LessThan(new Date())`: not true of null
abbrev pub before : Option ℕ → ℕ → Bool
before none now = false
before (some t) now = ltb t now

-- the `where` by which each service finds the job that it is to execute
abbrev pub is_ready : TokenJobType → ℕ → ℕ → TokenJob → Bool
is_ready type now id j =
    has_id id j
    && same_type j.type type
    && same_status j.status TokenJobStatus.created
    && before j.execute_at now

-- the `update(job.id, …)` of each service
abbrev pub start_job : ℕ → TokenJob → TokenJob
start_job now j = record j { status = TokenJobStatus.started; started_at = some now }

abbrev pub complete_job : ℕ → TokenJob → TokenJob
complete_job now j = record j { status = TokenJobStatus.completed; complete_at = some now }

abbrev pub fail_job : ℕ → TokenJob → TokenJob
fail_job now j = record j { status = TokenJobStatus.failed; failed_at = some now }

module _ (env : Env) where
  open env use {clock, uuid}

  unfoldable pub new_date : Exec ℕ
  new_date = ask clock

  -- What TypeORM gives back has the address as the caller spelled it; here it is the stored row.
  unfoldable pub save_job : Connection → JobValues → Exec TokenJob
  save_job c v = do
    id ← ask uuid
    now ← ask clock
    write c (insert_job (job_row id now v))
    pure (job_row id now v)
