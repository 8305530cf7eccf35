-- ===== src/Tokens/Lookup.antt =====
-- What a lookup of a token answers, whether it asks for a refresh or not.
use nft_tracker.Prelude.{
  ℕ, suc, ◌≡◌, refl, ap, ◌∙◌, ◌⊎◌, inl, inr, Option, none, some, Bool, true, false, ◌==◌, ◌===◌,
  ◌&&◌, find_one, find_one-eq-some, find_one-Among, find_one-none, All, All-of, Among, Option-cases,
}
use nft_tracker.Store.Entities.{Token, TokenJob}
use nft_tracker.Store.World.{World, Db, token_not_found}
use nft_tracker.Store.Exec.{Result, ok, err, pure, lift, gets, ◌>>=◌, ◌>>◌}
use nft_tracker.Store.Env.{Env}
use nft_tracker.Store.Tables.{new_date, save_job, insert_job}
use nft_tracker.Jobs.Service.{
  RefreshParams, date_or_now, create_job, create_unless_open, is_open_refresh,
  create_refresh_token_job,
}
use nft_tracker.Tokens.{
  NftByTokenRequest, Nft, contract_of, asset_of, option_of, to_public, is_requested, refresh_of,
  refresh, refresh_if, public_or_fail, find_by_token,
}
use nft_tracker.Tokens.Shown.{
  HasKey, Shows, is_requested-HasKey, HasKey-is_requested, to_public-Shows,
}

module _ (env : Env) where
  -- What a reader of tokens sees is the same in both states.
  pub record SameView (w w' : World) : Type 0 where
    pub tokens : w'.db.tokens ≡ w.db.tokens
    pub contracts : w'.db.contracts ≡ w.db.contracts
    pub assets : w'.db.assets ≡ w.db.assets

  Refreshed : World → Result (Unit {0}) × World → Type 0
  Refreshed w r = (r.0 ≡ ok tt) × SameView w r.1

  created-Refreshed :
      (p : RefreshParams) (found : Option TokenJob) (at : ℕ) (w : World)
      → p.execute_at ≡ some at
      → Refreshed w ((create_unless_open env p found >> pure tt) w)
  unfolding Refreshed create_unless_open create_job date_or_now save_job insert_job ◌>>=◌
  created-Refreshed p (some job) at w e =
      (refl, record { tokens = refl; contracts = refl; assets = refl })
  created-Refreshed p none at w e =
      simp (e) (refl, record { tokens = refl; contracts = refl; assets = refl })

  refreshed :
      (b : Bool) (request : NftByTokenRequest) (w : World)
      → Refreshed w (refresh_if env b request w)
  unfolding Refreshed refresh create_refresh_token_job new_date ◌>>=◌
  refreshed false request w = (refl, record { tokens = refl; contracts = refl; assets = refl })
  refreshed true request w =
      let p = refresh_of env request (env.clock w.ticks) in
      let (done, view) =
        created-Refreshed p (find_one (is_open_refresh env p) w.db.jobs) (env.clock w.ticks)
          (record w { ticks = suc w.ticks }) refl in
      (done, record { tokens = view.tokens; contracts = view.contracts; assets = view.assets })

  -- What is answered, by the row that the key has in the table.
  abbrev pub Answers : NftByTokenRequest → World → Option Token → Result Nft → Type 0
  Answers request w none r =
      r
      ≡ err (
          token_not_found (some request.contract_address) (some request.chain_id)
            (some request.token_id))
  Answers request w (some t) r = r ≡ ok (to_public env t (contract_of t w.db) (asset_of t w.db))

  public_or_fail-Answers :
      (request : NftByTokenRequest) (found : Option Token) (w w' : World)
      → SameView w w'
      → Answers request w found (public_or_fail env request found w').0
        × SameView w (public_or_fail env request found w').1
  unfolding public_or_fail ◌>>=◌
  public_or_fail-Answers request none w w' view = (refl, view)
  public_or_fail-Answers request (some t) w w' view = (
    ap
          (λ cs. ok (
            to_public env t (find_one (λ c. c.address === t.address && c.chain_id == t.chain_id) cs)
              (asset_of t w'.db)))
          view.contracts
        ∙ ap
            (λ os. ok (
              to_public env t (contract_of t w.db)
                (option_of (λ id. find_one (λ a. a.id == id) os) t.asset_id)))
            view.assets,
    view,
  )

  answered :
      (request : NftByTokenRequest) (found : Option Token) (w : World)
      (r : Result (Unit {0}) × World)
      → find_one (is_requested env request) w.db.tokens ≡ found
      → Refreshed w r
      → let answer =
          (lift r.0 >>= λ u.
          gets (λ w. find_one (is_requested env request) w.db.tokens)
          >>= public_or_fail env request)
            r.1 in
        Answers request w found answer.0 × SameView w answer.1
  unfolding Refreshed ◌>>=◌
  answered request found w (err x, w') e h = absurd (cc (h.0))
  answered request found w (ok u, w') e (done, view) =
      rw (ap (find_one (is_requested env request)) view.tokens ∙ e)
        (public_or_fail-Answers request found w w' view)

  of_found :
      (request : NftByTokenRequest) (w : World) (found : Option Token)
      → find_one (is_requested env request) w.db.tokens ≡ found
      → Answers request w found (find_by_token env request w).0
        × SameView w (find_by_token env request w).1
  unfolding find_by_token ◌>>=◌
  of_found request w found e =
      answered request found w (refresh_if env request.refresh_cache request w) e
        (refreshed request.refresh_cache request w)

  -- What is answered to a request: the token with its key, as it is shown, or, where no token has the
  -- key, that it was not found.
  abbrev pub Answer : NftByTokenRequest → Db → Result Nft → Type 0
  Answer request d r =
      ((t : Token) × (nft : Nft) × Among t d.tokens
        × HasKey request t
        × (r ≡ ok nft)
        × Shows env d t nft)
      ⊎ (All (λ t. HasKey request t → ⊥) d.tokens
          × (r
              ≡ err (
                  token_not_found (some request.contract_address) (some request.chain_id)
                    (some request.token_id))))

  -- A request is answered with a token of the table that has the chain, the address, in any case of
  -- the letters, and the number that are asked for. It is shown with its own columns, the symbol and
  -- supply of the contract at its address and chain, and the copy of its image, as all these were
  -- before the call. Where no token has this key, that is what is thrown. A request to refresh changes
  -- none of this, nor what stands in the three tables.
  pub find_by_token-Answers :
      (request : NftByTokenRequest) (w : World)
      → Answer request w.db (find_by_token env request w).0
        × SameView w (find_by_token env request w).1
  find_by_token-Answers request w =
      elim (Option-cases (find_one (is_requested env request) w.db.tokens)) [
        | inl e ↦
            (let (answer, view) = of_found request w none e in
              (
                inr (
                  All-of w.db.tokens (λ t f h. cc (f, HasKey-is_requested env request t h))
                      (find_one-none (is_requested env request) w.db.tokens e),
                  answer,
                ),
                view,
              ))
        | inr (t, e) ↦
            (let (answer, view) = of_found request w (some t) e in
              (
                inl (
                  t,
                  to_public env t (contract_of t w.db) (asset_of t w.db),
                  find_one-Among (is_requested env request) w.db.tokens e,
                  is_requested-HasKey env request t
                      (find_one-eq-some (is_requested env request) w.db.tokens e),
                  answer,
                  to_public-Shows env w.db t,
                ),
                view,
              ))
      ]
