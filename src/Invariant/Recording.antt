-- ===== src/Invariant/Recording.antt =====
-- The rules for invariants on tokens-transfer.service.ts.
use nft_tracker.Prelude.{Bool, Option, none, some}
use nft_tracker.Store.Entities.{TokenJob, Token}
use nft_tracker.Store.World.{Db}
use nft_tracker.Store.Exec.Keeps.{Keeps, Holds, Keeps-pure, Keeps-if}
use nft_tracker.Store.Env.{Env}
use nft_tracker.Transfers.{
  TokenHistoryParams, get_history_by_transaction_hash, create_verify_job, update_owner, follow_up,
  record_transfer, create_history,
}
use nft_tracker.Invariant.{Withstands}
use nft_tracker.Invariant.Outside.{outside_rules}
use nft_tracker.Invariant.Services.{token_changes, Keeps-create_job}

module _ {env : Env} {P : Db → Type 0} {Q : TokenJob → Type 0} (h : Withstands env P Q)
    (p : TokenHistoryParams) where
  Keeps-follow_up : (latest : Bool) (o : Option Token) → Keeps (Holds P) (follow_up env p latest o)
  unfolding follow_up create_verify_job update_owner
  Keeps-follow_up latest none = search (outside_rules, Keeps-create_job h) depth 20
  Keeps-follow_up latest (some token) =
      Keeps-if latest _ _ (search (outside_rules, h.token, token_changes) depth 20) (Keeps-pure tt)

  -- Whether it returns or throws.
  pub create_history-Keeps : Keeps (Holds P) (create_history env p)
  unfolding create_history get_history_by_transaction_hash record_transfer
  create_history-Keeps = search (outside_rules, h.recorded, Keeps-follow_up) depth 20
