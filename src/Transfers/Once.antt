-- ===== src/Transfers/Once.antt =====
-- `createHistory` and the transfers that it compares an event with.
use nft_tracker.Prelude.{
  ℕ, ◌≡◌, refl, sym, ap, ◌∙◌, Text, Option, none, some, Bool, true, List, [], ◌∷◌, ◌++◌, ◌==◌,
  ◌===◌, ◌&&◌, ===_refl, any, select, to_lower, Bool-cases, inl, inr, arith,
}
use nft_tracker.Provider.{create, owner_of, get_owner_of}
use nft_tracker.Store.Entities.{TokenTransfer}
use nft_tracker.Store.Entities
use nft_tracker.Store.World.{Db, World}
use nft_tracker.Store.Exec.{ok, repository, ask, write, ◌>>=◌}
use nft_tracker.Store.Exec.Keeps.{
  Keeps, Keeps-pure, Keeps-throw, Keeps-lift, Keeps-gets, Keeps-if, Keeps-try_catch, Keeps-bind,
}
use nft_tracker.Store.Env.{Env}
use nft_tracker.Store.Tables.{new_date, save_job, insert_job, insert_transfer, update_tokens}
use nft_tracker.Jobs.Service.{CreateJobParams, date_or_now, create_job}
use nft_tracker.Transfers.{
  TokenHistoryParams, same_transaction, transfer_row, has_index, get_history_by_transaction_hash,
  create_verify_job, update_owner, follow_up, record_transfer, create_history,
}

abbrev Transfers : List TokenTransfer → World → Type 0
Transfers ts w = w.db.transfers ≡ ts

module _ (env : Env) (ts : List TokenTransfer) where
  Transfers-ask : {A : Type 0} (answer : ℕ → A) → Keeps (Transfers ts) (ask answer)
  unfolding ◌>>=◌
  Transfers-ask answer = record { at = λ w h. h }

  Transfers-write :
      (f : Db → Db)
      → ((d : Db) → (f d).transfers ≡ d.transfers)
      → Keeps (Transfers ts) (write repository f)
  unfolding ◌>>=◌
  Transfers-write f same = record { at = λ w h. same w.db ∙ h }

  Transfers-date : Keeps (Transfers ts) (new_date env)
  unfolding new_date
  Transfers-date = Transfers-ask _

  ruleset transfers_rules = (
    Keeps-pure, Keeps-throw, Keeps-lift, Keeps-gets, Keeps-if, Keeps-try_catch, Keeps-bind,
    Transfers-ask, Transfers-date,
  )

  Transfers-create_job : (v : CreateJobParams) → Keeps (Transfers ts) (create_job env v)
  unfolding create_job save_job insert_job date_or_now
  Transfers-create_job v = Keeps-bind _ _ (at v.execute_at) λ execute_at.
      Keeps-bind _ _ (Transfers-ask _) λ id.
        Keeps-bind _ _ (Transfers-ask _)
          λ now. Keeps-bind _ _ (Transfers-write _ (λ d. refl)) (λ _. Keeps-pure _)
    where
      at : (o : Option ℕ) → Keeps (Transfers ts) (date_or_now env o)
      at none = Transfers-date
      at (some t) = Keeps-pure t

  Transfers-follow_up :
      (p : TokenHistoryParams) (latest : Bool) (o : Option Entities.Token)
      → Keeps (Transfers ts) (follow_up env p latest o)
  unfolding follow_up create_verify_job update_owner create get_owner_of owner_of update_tokens
  Transfers-follow_up p latest none = search (transfers_rules, Transfers-create_job)
  Transfers-follow_up p latest (some token) =
      Keeps-if latest _ _
        (Keeps-bind _ _ (search transfers_rules) λ _.
          Keeps-bind _ _ (search transfers_rules) λ owner.
            Keeps-bind _ _ Transfers-date
              λ changed. Keeps-bind _ _ Transfers-date λ checked. Transfers-write _ (λ d. refl))
        (Keeps-pure tt)

-- Two events with the same contract, token, transaction and index of the transaction in its block.
pub record SameKey (p q : TokenHistoryParams) : Type 0 where
  pub address : to_lower p.address ≡ to_lower q.address
  pub chain_id : p.chain_id ≡ q.chain_id
  pub token_id : p.token_id ≡ q.token_id
  pub transaction_hash : to_lower p.transaction_hash ≡ to_lower q.transaction_hash
  pub transaction_index : p.transaction_index ≡ q.transaction_index

abbrev is_recorded : TokenHistoryParams → List TokenTransfer → Bool
is_recorded p ts = any (has_index p) (select (same_transaction p) ts)

-- the two tests of a row, by the values that they compare with
is_row : Text → ℕ → ℕ → Text → ℕ → List TokenTransfer → Bool
is_row address chain_id token_id transaction_hash transaction_index ts =
    any (λ t. t.transaction_index == transaction_index)
      (select
        (λ t.
          t.address === address
          && t.chain_id == chain_id
          && t.token_id == token_id
          && t.transaction_hash === transaction_hash)
        ts)

is_recorded-SameKey :
    (p q : TokenHistoryParams) (ts : List TokenTransfer)
    → SameKey p q
    → is_recorded p ts ≡ is_recorded q ts
unfolding is_row
is_recorded-SameKey p q ts same =
    ap (λ a. is_row a p.chain_id p.token_id (to_lower p.transaction_hash) p.transaction_index ts)
      same.address
    ∙ ap
        (λ n.
          is_row (to_lower q.address) n p.token_id (to_lower p.transaction_hash) p.transaction_index
            ts)
        same.chain_id
    ∙ ap
        (λ n.
          is_row (to_lower q.address) q.chain_id n (to_lower p.transaction_hash) p.transaction_index
            ts)
        same.token_id
    ∙ ap (λ h. is_row (to_lower q.address) q.chain_id q.token_id h p.transaction_index ts)
        same.transaction_hash
    ∙ ap (λ n. is_row (to_lower q.address) q.chain_id q.token_id (to_lower q.transaction_hash) n ts)
        same.transaction_index

is_recorded-append :
    (p : TokenHistoryParams) (id : ℕ) (ts : List TokenTransfer)
    → is_recorded p (ts ++ transfer_row id p ∷ []) ≡ true
is_recorded-append p id [] =
    ground (arith, ===_refl (to_lower p.address), ===_refl (to_lower p.transaction_hash))
is_recorded-append p id (t ∷ ts) = elim (Bool-cases (same_transaction p t)) [
  | inl e ↦ rw e (ground (arith, is_recorded-append p id ts))
  | inr e ↦ rw e (is_recorded-append p id ts)
]

module _ (env : Env) (p : TokenHistoryParams) where
  skipped : (w : World) → is_recorded p w.db.transfers ≡ true → create_history env p w ≡ (ok tt, w)
  unfolding create_history get_history_by_transaction_hash ◌>>=◌
  skipped w h = rw h refl

  record_transfer-transfers :
      (history : List TokenTransfer) (w : World)
      → (record_transfer env p history w).1.db.transfers
        ≡ w.db.transfers ++ transfer_row (env.uuid w.ticks) p ∷ []
  unfolding record_transfer insert_transfer ◌>>=◌
  record_transfer-transfers history w = (Transfers-follow_up env _ p _ _).at _ refl

  create_history-is_recorded :
      (w : World) → is_recorded p (create_history env p w).1.db.transfers ≡ true
  unfolding create_history get_history_by_transaction_hash ◌>>=◌
  create_history-is_recorded w = elim (Bool-cases (is_recorded p w.db.transfers)) [
    | inl e ↦ rw e e
    | inr e ↦
        rw (e, record_transfer-transfers (select (same_transaction p) w.db.transfers) w)
          (is_recorded-append p (env.uuid w.ticks) w.db.transfers)
  ]

-- Once a transfer has been handled, with or without an error, a transfer of the same token in the
-- same transaction is passed over: the method returns and changes nothing. So a repeated event is
-- recorded once; and so are two transfers of one token within one transaction.
pub create_history-create_history :
    (env : Env) (p q : TokenHistoryParams)
    → SameKey p q
    → (w : World)
    → let after = (create_history env p w).1 in create_history env q after ≡ (ok tt, after)
create_history-create_history env p q same w =
    let after = (create_history env p w).1 in
    skipped env q after
      (sym (is_recorded-SameKey p q after.db.transfers same) ∙ create_history-is_recorded env p w)
