-- ===== src/Evm/Pool.antt =====
-- What asking for a socket does to the pool.
use nft_tracker.Prelude.{
  ℕ, ◌≡◌, refl, Text, Option, none, some, Bool, true, false, List, [], ◌∷◌, ◌⊎◌, inl, inr, find_one,
  update_where, change, All, All-of, All-update_where, All-upsert_row, Bool-cases,
}
use nft_tracker.Store.Exec.{Result, ok, err}
use nft_tracker.Action.{lift, modify, go_on, stays, ◌>>=◌, ◌>>◌}
use nft_tracker.Evm.{
  Evm, Network, WebSocketProvider, ReadyState, is_web_socket_of, set_web_socket, new_socket,
  make_web_socket, renew_web_socket, get_rpc_url_on_configuration_or_default,
  get_wss_url_on_configuration_or_default, get_web_socket_provider_by_chain_id, drop_web_socket,
  pooled_web_socket, get_minimum_transaction_confirmation,
}

module _ {A : Type 0} where
  pub find_one-eq-none :
      (p : A → Bool) (xs : List A) → find_one p xs ≡ none → All (λ x. p x ≡ false) xs
  find_one-eq-none p [] e = tt
  find_one-eq-none p (x ∷ xs) e = elim (Bool-cases (p x)) [
    | inl t ↦ cc (rw t at e)
    | inr t ↦ (t, find_one-eq-none p xs (rw t at e))
  ]

  pub All-both : (P P' : A → Type 0) (xs : List A) → All P xs → All P' xs → All (λ x. P x × P' x) xs
  All-both P P' [] h k = tt
  All-both P P' (x ∷ xs) (p, h) (q, k) = ((p, q), All-both P P' xs h k)

  -- An update may move the rows from one predicate to another.
  pub All-moved :
      {P P' : A → Type 0} (p : A → Bool) (f : A → A) (xs : List A)
      → ((x : A) → P x → p x ≡ true → P' (f x))
      → ((x : A) → P x → p x ≡ false → P' x)
      → All P xs
      → All P' (update_where p f xs)
  All-moved p f [] yes_ no_ h = tt
  All-moved {P' = P'} p f (x ∷ xs) yes_ no_ (hx, h) =
      (moved (Bool-cases (p x)), All-moved p f xs yes_ no_ h)
    where
      moved : (p x ≡ true) ⊎ (p x ≡ false) → P' (change p f x)
      moved (inl e) = rw e (yes_ x hx e)
      moved (inr e) = rw e (no_ x hx e)

same_state :
    {A B : Type 0} (c : Result A) (g : A → Result B) (s : Evm)
    → (r : Result B) × (go_on c (λ a t. (g a, t)) s ≡ (r, s))
same_state (ok a) g s = (g a, refl)
same_state (err e) g s = (err e, refl)

-- Reading the configuration changes nothing.
pub get_minimum_pure :
    (chain_id : ℕ) (s : Evm)
    → (r : Result ℕ) × (get_minimum_transaction_confirmation chain_id s ≡ (r, s))
unfolding get_minimum_transaction_confirmation
get_minimum_pure chain_id s = same_state s.config _ s

get_wss_url_pure :
    (chain_id : ℕ) (s : Evm)
    → (r : Result Text) × (get_wss_url_on_configuration_or_default chain_id s ≡ (r, s))
unfolding get_wss_url_on_configuration_or_default
get_wss_url_pure chain_id s = same_state s.config _ s

pub get_rpc_url_pure :
    (chain_id : ℕ) (s : Evm)
    → (r : Result Text) × (get_rpc_url_on_configuration_or_default chain_id s ≡ (r, s))
unfolding get_rpc_url_on_configuration_or_default
get_rpc_url_pure chain_id s = same_state s.config _ s

module _ (P : WebSocketProvider → Type 0)
    (fresh : (chain_id : ℕ) (uri : Text) (serial : ℕ) → P (new_socket chain_id uri serial)) where
  make-All :
      (chain_id : ℕ) (uri : Text) (s : Evm)
      → All P s.web_socket_pool
      → All P (make_web_socket chain_id uri s).1.web_socket_pool
  unfolding make_web_socket
  make-All chain_id [] s h = h
  make-All chain_id (c ∷ uri) s h =
      All-upsert_row P (is_web_socket_of chain_id) _ _ s.web_socket_pool
        (λ p hp. fresh chain_id (c ∷ uri) s.made) (fresh chain_id (c ∷ uri) s.made) h

  module _ (network : Network) (chain_id : ℕ) where
    pub renew-All :
        (s : Evm)
        → All P s.web_socket_pool
        → All P (renew_web_socket network chain_id s).1.web_socket_pool
    unfolding renew_web_socket
    renew-All s h =
        let (r, e) = get_wss_url_pure chain_id s in
        rw e (
          stays (λ t. All P t.web_socket_pool) r (make_web_socket chain_id) s h
            (λ uri found. make-All chain_id uri s h))

    pub open-All :
        (s : Evm)
        → All P s.web_socket_pool
        → All P (get_web_socket_provider_by_chain_id network chain_id false s).1.web_socket_pool
    unfolding get_web_socket_provider_by_chain_id
    open-All s h = opened (find_one (is_web_socket_of chain_id) s.web_socket_pool)
      where
        opened :
            (found : Option WebSocketProvider)
            → All P (pooled_web_socket network chain_id false found s).1.web_socket_pool
        opened none = renew-All s h
        opened (some p) = h

    after_drop :
        ((p : WebSocketProvider) (state : ReadyState) → P p → P (record p { ready_state = state }))
        → (r : Result ReadyState) (s : Evm) → All P s.web_socket_pool
        → All P
            ((lift r
                >>= (λ state.
                    modify (set_web_socket chain_id (λ q. record q { ready_state = state })))
                >> renew_web_socket network chain_id)
              s).1.web_socket_pool
    after_drop changes (err e) s h = h
    after_drop changes (ok state) s h =
        renew-All (set_web_socket chain_id (λ q. record q { ready_state = state }) s) (
          All-update_where P (is_web_socket_of chain_id) _ s.web_socket_pool
            (λ p hp same. changes p state hp) h)

    -- A forced renewal leaves no listener on any socket of the chain.
    pub force-All :
        (P' : WebSocketProvider → Type 0) (s : Evm)
        → ((p : WebSocketProvider)
            → P' p
            → is_web_socket_of chain_id p ≡ true
            → P (record p { listeners = [] }))
        → ((p : WebSocketProvider) → P' p → is_web_socket_of chain_id p ≡ false → P p)
        → ((p : WebSocketProvider) (state : ReadyState)
            → P p
            → P (record p { ready_state = state }))
        → All P' s.web_socket_pool
        → All P (get_web_socket_provider_by_chain_id network chain_id true s).1.web_socket_pool
    unfolding get_web_socket_provider_by_chain_id drop_web_socket
    force-All P' s of_chain other changes h =
        forced (find_one (is_web_socket_of chain_id) s.web_socket_pool) refl
      where
        cleared : All P (
            update_where
              (is_web_socket_of chain_id)
              (λ q. record q { listeners = [] })
              s.web_socket_pool)
        cleared = All-moved (is_web_socket_of chain_id) _ s.web_socket_pool of_chain other h

        forced :
            (found : Option WebSocketProvider)
            → find_one (is_web_socket_of chain_id) s.web_socket_pool ≡ found
            → All P (pooled_web_socket network chain_id true found s).1.web_socket_pool
        forced none e = renew-All s (
            All-of s.web_socket_pool (λ p both. other p both.0 both.1)
              (All-both P' _ s.web_socket_pool h (find_one-eq-none _ s.web_socket_pool e)))
        forced (some p) e = after_drop changes (network.destroy p) _ cleared
