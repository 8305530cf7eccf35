-- ===== src/Evm/Watcher.antt =====
-- modules/blockchain/evm/queue/evm-events-watcher.processor.ts, and `processPreviousBlocks` of
-- evm-events.services.ts with what it asks the chain: what a watcher does for its chains when it starts.
use nft_tracker.Prelude.{
  ℕ, ◌≤◌, ◌<◌, ◌≡◌, refl, ap, ◌∙◌, Option, none, some, Bool, true, false, List, [], ◌∷◌, or_else,
  ==_iff, arith,
}
use nft_tracker.Store.Exec.{Result, ok, err}
use nft_tracker.Action.{Action, pure, throw, modify, caught, go_on, ◌>>=◌, ◌>>◌}
use nft_tracker.Events.{
  Events, get_latest_block_number_sync, is_block_queued, process_previous_blocks,
}
use nft_tracker.Events.Cover.{NewRead}
use nft_tracker.Evm.{
  Network, WebSocketProvider, get_block_number, get_web_socket_provider_by_chain_id,
  get_minimum_transaction_confirmation,
}
use nft_tracker.Evm.Sockets.{
  Watch, on_evm, is_subscribed, unsubscribe, listen, listen_on, subscribe_new, subscribe_unless,
  subscribe_block_number_by_chain_id,
}

module _ (network : Network) where
  -- `processPreviousBlocks`, with `syncBlock`
  unfoldable pub enqueue_previous_blocks : ℕ → Action Watch Unit
  enqueue_previous_blocks chain_id = do
    current ← on_evm (get_block_number network chain_id)
    confirmations ← on_evm (get_minimum_transaction_confirmation chain_id)
    modify
        (λ s. record s { events = process_previous_blocks chain_id confirmations current s.events })

  unfoldable pub start_chain : Bool → ℕ → Action Watch Unit
  start_chain is_watcher chain_id =
      subscribe_block_number_by_chain_id network is_watcher chain_id
      >> enqueue_previous_blocks chain_id

  -- `parallel` runs the body for each chain, whether others fail or not; nobody waits for it, so that
  -- an error of a body reaches no caller.
  unfoldable pub start_chains : Bool → List ℕ → Watch → Watch
  start_chains is_watcher [] s = s
  start_chains is_watcher (c ∷ cs) s = start_chains is_watcher cs (start_chain is_watcher c s).1

  unfoldable pub on_module_init : Bool → List ℕ → Action Watch Unit
  on_module_init true chains = modify (start_chains true chains)
  on_module_init false chains = pure tt

  subscribed_self : (c : ℕ) (cs : List ℕ) → is_subscribed c (c ∷ cs) ≡ true
  subscribed_self c cs = ground (arith, ==_iff c c)

  -- Neither the subscriptions nor the queue of blocks differ.
  abbrev Same : Watch → Watch → Type 0
  Same s t = (t.subscribed ≡ s.subscribed) × (t.events ≡ s.events)

  Same-listen :
      (c : ℕ) (r : Result ℕ) (s : Watch) → Same s (go_on r (λ n. on_evm (modify (listen c n))) s).1
  Same-listen c (ok n) s = (refl, refl)
  Same-listen c (err e) s = (refl, refl)

  Same-listen_on :
      (c : ℕ) (r : Result (Option WebSocketProvider)) (s : Watch)
      → Same s (go_on r (listen_on c) s).1
  Same-listen_on c (err e) s = (refl, refl)
  Same-listen_on c (ok none) s = (refl, refl)
  Same-listen_on c (ok (some p)) s =
      Same-listen c (get_minimum_transaction_confirmation c s.evm).0
        (on_evm (get_minimum_transaction_confirmation c) s).1

  subscribe_new-Same :
      (c : ℕ) (s : Watch)
      → Same (record s { subscribed = c ∷ s.subscribed }) (subscribe_new network true c s).1
  unfolding subscribe_new
  subscribe_new-Same c s =
      let s' : Watch = record s { subscribed = c ∷ s.subscribed } in
      Same-listen_on c (get_web_socket_provider_by_chain_id network c false s.evm).0
        (on_evm (get_web_socket_provider_by_chain_id network c false) s').1

  subscribe_unless-subscribed :
      (c : ℕ) (there : Bool) (s : Watch)
      → is_subscribed c s.subscribed ≡ there
      → (is_subscribed c (subscribe_unless network true c true there s).1.subscribed ≡ true)
        × ((subscribe_unless network true c true there s).1.events ≡ s.events)
  subscribe_unless-subscribed c true s h = (h, refl)
  subscribe_unless-subscribed c false s h =
      let (p, q) = subscribe_new-Same c s in
      (ap (is_subscribed c) p ∙ subscribed_self c s.subscribed, q)

  after_subscribe :
      (c : ℕ) (r : Result Unit) (s' s : Watch)
      → (is_subscribed c s'.subscribed ≡ true) × (s'.events ≡ s.events)
      → (caught r (λ e. unsubscribe c >> throw e) s').0 ≡ ok tt
      → (is_subscribed c (caught r (λ e. unsubscribe c >> throw e) s').1.subscribed ≡ true)
        × ((caught r (λ e. unsubscribe c >> throw e) s').1.events ≡ s.events)
  after_subscribe c (ok u) s' s h e = h
  after_subscribe c (err x) s' s h e = cc

  subscribed :
      (c : ℕ) (s : Watch)
      → (subscribe_block_number_by_chain_id network true c s).0 ≡ ok tt
      → (is_subscribed c (subscribe_block_number_by_chain_id network true c s).1.subscribed ≡ true)
        × ((subscribe_block_number_by_chain_id network true c s).1.events ≡ s.events)
  unfolding subscribe_block_number_by_chain_id
  subscribed c s e =
      let there = is_subscribed c s.subscribed in
      after_subscribe c (subscribe_unless network true c true there s).0
        (subscribe_unless network true c true there s).1 s
        (subscribe_unless-subscribed c there s refl) e

  -- a job for each mined block from the last that was read on, below the current one
  abbrev pub Queued : ℕ → ℕ → Events → Watch → Type 0
  Queued c current events s =
      (m : ℕ)
      → or_else (get_latest_block_number_sync c events) current ≤ m
      → m < current
      → 0 < m
      → is_block_queued c m s.events.queue ≡ true

  -- the rest, once the current block is known
  abbrev with_current : ℕ → ℕ → Action Watch Unit
  with_current c current = do
    confirmations ← on_evm (get_minimum_transaction_confirmation c)
    modify (λ s. record s { events = process_previous_blocks c confirmations current s.events })

  abbrev pub Started : ℕ → ℕ → ℕ → Events → Result (Unit {0}) × Watch → Type 0
  Started c current confirmations events r =
      (r.0 ≡ ok tt)
      × (is_subscribed c r.1.subscribed ≡ true)
      × Queued c current events r.1
      × NewRead confirmations events.queue r.1.events.queue

  -- what is enqueued with a number of confirmations that was read
  abbrev enqueue_with : ℕ → ℕ → ℕ → Action Watch Unit
  enqueue_with c current confirmations =
      modify (λ s. record s { events = process_previous_blocks c confirmations current s.events })
