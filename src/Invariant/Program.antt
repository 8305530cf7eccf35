-- ===== src/Invariant/Program.antt =====
-- The program as steps on the tables: handlers of the queue, transfers that are read off the chain,
-- contracts that are registered, tokens that are looked up, in any order.
use nft_tracker.Prelude.{Bool, Option, none, some, List}
use nft_tracker.Provider
use nft_tracker.Store.Entities.{Token, TokenJob, Contract}
use nft_tracker.Store.World.{Db, World, QueueJob}
use nft_tracker.Store.Exec.Keeps.{Keeps, Holds, keeps_rules}
use nft_tracker.Store.Env.{Env}
use nft_tracker.Contracts.{
  CreateContractDto, find_one_by_address_and_chain_id, save_new, create_unless_found,
  create_contract,
}
use nft_tracker.Processor.{Handler, handle}
use nft_tracker.Tokens.{NftByTokenRequest, refresh, refresh_if, public_or_fail, find_by_token}
use nft_tracker.Transfers.{TokenHistoryParams, create_history}
use nft_tracker.Invariant.{Withstands}
use nft_tracker.Invariant.Outside.{outside_rules}
use nft_tracker.Invariant.Services.{Keeps-create_job, Keeps-create_refresh_token_job}
use nft_tracker.Invariant.Handlers.{handle-Keeps}
use nft_tracker.Invariant.Recording.{create_history-Keeps}
use nft_tracker.Invariant.Validity.{IsValid, IsValid-Withstands}

module _ {env : Env} {P : Db → Type 0} {Q : TokenJob → Type 0} (h : Withstands env P Q) where
  Keeps-save_new : (dto : CreateContractDto) → Keeps (Holds P) (save_new env dto)
  unfolding save_new Provider.name Provider.symbol Provider.total_supply
  Keeps-save_new dto = search (outside_rules, Keeps-create_job h, h.contracted) depth 20

  Keeps-create_unless_found :
      (dto : CreateContractDto) (o : Option Contract)
      → Keeps (Holds P) (create_unless_found env dto o)
  unfolding create_unless_found
  Keeps-create_unless_found dto none = Keeps-save_new dto
  Keeps-create_unless_found dto (some c) = search keeps_rules

  Keeps-create_contract : (dto : CreateContractDto) → Keeps (Holds P) (create_contract env dto)
  unfolding create_contract find_one_by_address_and_chain_id
  Keeps-create_contract dto = search (outside_rules, Keeps-create_unless_found) depth 20

  Keeps-refresh_if :
      (b : Bool) (request : NftByTokenRequest) → Keeps (Holds P) (refresh_if env b request)
  unfolding refresh
  Keeps-refresh_if Bool.false request = search keeps_rules
  Keeps-refresh_if Bool.true request =
      search (outside_rules, Keeps-create_refresh_token_job h) depth 20

  Keeps-public_or_fail :
      (request : NftByTokenRequest) (o : Option Token)
      → Keeps (Holds P) (public_or_fail env request o)
  unfolding public_or_fail
  Keeps-public_or_fail request none = search keeps_rules
  Keeps-public_or_fail request (some t) = search keeps_rules

  Keeps-find_by_token : (request : NftByTokenRequest) → Keeps (Holds P) (find_by_token env request)
  unfolding find_by_token
  Keeps-find_by_token request =
      search (outside_rules, Keeps-refresh_if, Keeps-public_or_fail) depth 20

-- What the program does to its state; `picked` is the order in which the database takes up rows.
pub data Step (env : Env) (picked : List Token → List Token) : World → World → Type 0 where
  handles : (x : Handler) {w : World} → Step env picked w (handle env picked x w).1
  records : (p : TokenHistoryParams) {w : World} → Step env picked w (create_history env p w).1
  registers :
      (dto : CreateContractDto) {w : World} → Step env picked w (create_contract env dto w).1
  looks_up : (r : NftByTokenRequest) {w : World} → Step env picked w (find_by_token env r w).1
  -- jobs leave the queue, done or failed, or are put into it by another process
  requeues : (queue : List QueueJob) {w : World} → Step env picked w (record w { queue = queue })

pub data Reach (env : Env) (picked : List Token → List Token) : World → World → Type 0 where
  here : {w : World} → Reach env picked w w
  then_ : {u v w : World} → Reach env picked u v → Step env picked v w → Reach env picked u w

module _ {env : Env} {picked : List Token → List Token} where
  Step-IsValid : {v w : World} → Step env picked v w → Holds IsValid v → Holds IsValid w
  Step-IsValid (handles x {w}) h = (handle-Keeps (IsValid-Withstands env) picked x).at w h
  Step-IsValid (records p {w}) h = (create_history-Keeps (IsValid-Withstands env) p).at w h
  Step-IsValid (registers dto {w}) h = (Keeps-create_contract (IsValid-Withstands env) dto).at w h
  Step-IsValid (looks_up r {w}) h = (Keeps-find_by_token (IsValid-Withstands env) r).at w h
  Step-IsValid (requeues queue) h = record {
    committed = h.committed;
    after_commit = h.after_commit;
  }

  -- Whatever the program does from a state with valid tables on, in whatever order, and whether its
  -- methods return or throw, the tables are valid in every state that it reaches.
  pub Reach-IsValid : {u w : World} → Reach env picked u w → Holds IsValid u → Holds IsValid w
  Reach-IsValid here h = h
  Reach-IsValid (then_ r step) h = Step-IsValid step (Reach-IsValid r h)
