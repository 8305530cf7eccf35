-- ===== src/Evm/Listeners.antt =====
-- The listeners of the sockets in every state that a process reaches.
use nft_tracker.Prelude.{
  ℕ, ◌≡◌, refl, ap, Option, none, some, Bool, true, false, List, [], ◌∷◌, ◌++◌, ◌==◌, ◌⊎◌, inl, inr,
  All, All-of, All-update_where, Bool-cases, arith,
}
use nft_tracker.Store.World.{Error}
use nft_tracker.Store.Exec.{Result, ok, err}
use nft_tracker.Action.{Action, throw, lift, modify, go_on, caught, try_catch, ◌>>=◌, ◌>>◌}
use nft_tracker.Evm.{
  Evm, Network, WebSocketProvider, ReadyState, is_web_socket_of,
  get_web_socket_provider_by_chain_id,
}
use nft_tracker.Evm.Pool.{All-moved, open-All, force-All, get_minimum_pure}
use nft_tracker.Evm.Sockets.{
  Watch, on_evm, is_subscribed, without, unsubscribe, listen, listen_on, subscribe_new,
  subscribe_unless, subscribe_block_number_by_chain_id, show_state, renew_closed, renew_if_closed,
  check_socket, checking_if_socket_connection_is_still_open, on_block, Step, Reach, subscribes,
  checks, opens, socket_changes, reconfigured, mined, here, then_, is_closed,
}

-- A socket has no listener, or one and then its chain is subscribed to.
abbrev pub HasOneListener : List ℕ → WebSocketProvider → Type 0
HasOneListener subscribed p =
    (p.listeners ≡ [])
    ⊎ ((c : ℕ) × (p.listeners ≡ c ∷ []) × (is_subscribed p.chain_id subscribed ≡ true))

abbrev pub Listening : Watch → Type 0
Listening s = All (HasOneListener s.subscribed) s.evm.web_socket_pool

-- while a chain is being subscribed to: its sockets have no listener yet
abbrev Free : ℕ → List ℕ → WebSocketProvider → Type 0
Free chain_id subscribed p =
    HasOneListener subscribed p × (is_web_socket_of chain_id p ≡ true → p.listeners ≡ [])

is_subscribed-without :
    (c d : ℕ) (subs : List ℕ)
    → d == c ≡ false
    → is_subscribed d subs ≡ true
    → is_subscribed d (without c subs) ≡ true
is_subscribed-without c d [] other h = h
is_subscribed-without c d (x ∷ subs) other h =
    ground (arith, other, h, is_subscribed-without c d subs other)

is_subscribed-cons :
    (c d : ℕ) (subs : List ℕ) → is_subscribed d subs ≡ true → is_subscribed d (c ∷ subs) ≡ true
is_subscribed-cons c d subs h = ground (arith, h)

same_chain : (c : ℕ) (subs : List ℕ) (d : ℕ) → d == c ≡ true → is_subscribed d (c ∷ subs) ≡ true
same_chain c subs d e = ground (arith, e)

away :
    (c : ℕ) (subs : List ℕ) (p : WebSocketProvider)
    → HasOneListener subs p
    → is_web_socket_of c p ≡ false
    → HasOneListener (without c subs) p
away c subs p (inl e) other = inl e
away c subs p (inr (k, e, m)) other = inr (k, e, is_subscribed-without c p.chain_id subs other m)

more :
    (c : ℕ) (subs : List ℕ) (p : WebSocketProvider)
    → HasOneListener subs p
    → HasOneListener (c ∷ subs) p
more c subs p (inl e) = inl e
more c subs p (inr (k, e, m)) = inr (k, e, is_subscribed-cons c p.chain_id subs m)

freed :
    (c : ℕ) (subs : List ℕ) (p : WebSocketProvider)
    → Free c subs p
    → HasOneListener (without c (c ∷ subs)) p
freed c subs p (h, empty) = elim (Bool-cases (is_web_socket_of c p)) [
  | inl e ↦ inl (empty e)
  | inr e ↦ away c (c ∷ subs) p (more c subs p h) e
]

free :
    (c : ℕ) (subs : List ℕ) (p : WebSocketProvider)
    → is_subscribed c subs ≡ false
    → HasOneListener subs p
    → Free c subs p
free c subs p new (inl e) = (inl e, λ same. e)
free c subs p new (inr (k, e, m)) =
    (inr (k, e, m), λ same. absurd (contradiction c p.chain_id subs new m same))
  where
    contradiction :
        (c d : ℕ) (subs : List ℕ)
        → is_subscribed c subs ≡ false
        → is_subscribed d subs ≡ true
        → d == c ≡ true
        → ⊥
    contradiction c d subs new m same = ground (arith, new, m, same)

abbrev fallback : ℕ → Error → Action Watch Unit
fallback c e = unsubscribe c >> throw e

go_on-Listening :
    {A B : Type 0} (x : Result A × Watch) (f : A → Action Watch B)
    → ((a : A) (t : Watch) → Listening t → Listening (f a t).1)
    → Listening x.1
    → Listening (go_on x.0 f x.1).1
go_on-Listening (ok a, t) f keep h = keep a t h
go_on-Listening (err e, t) f keep h = h

module _ (c : ℕ) (s : Watch) where
  abbrev during : Evm → Watch
  during evm = record s { subscribed = c ∷ s.subscribed; evm = evm }

  -- the end of `subscribe_new`, with its handler, from the answer of the pool on
  ends_Listening :
      (r : Result (Unit {0})) (evm : Evm)
      → All (Free c s.subscribed) evm.web_socket_pool
      → Listening (caught r (fallback c) (during evm)).1
  ends_Listening (ok u) evm h = All-of evm.web_socket_pool (λ p f. more c s.subscribed p f.0) h
  ends_Listening (err e) evm h = All-of evm.web_socket_pool (freed c s.subscribed) h

  listen-Listening :
      (n : ℕ) (evm : Evm)
      → All (Free c s.subscribed) evm.web_socket_pool
      → Listening (during (listen c n evm))
  listen-Listening n evm h =
      All-moved (is_web_socket_of c) _ evm.web_socket_pool
        (λ p f same.
          inr (n, ap (λ l. l ++ n ∷ []) (f.1 same), same_chain c s.subscribed p.chain_id same))
        (λ p f other. more c s.subscribed p f.0) h

  confirmed_Listening :
      (r : Result ℕ) (evm : Evm)
      → All (Free c s.subscribed) evm.web_socket_pool
      → Listening
          (try_catch (lift r >>= λ n. on_evm (modify (listen c n))) (fallback c) (during evm)).1
  confirmed_Listening (ok n) evm h = listen-Listening n evm h
  confirmed_Listening (err e) evm h = ends_Listening (err e) evm h

  answered_Listening :
      (r : Result (Option WebSocketProvider)) (evm : Evm)
      → All (Free c s.subscribed) evm.web_socket_pool
      → Listening (try_catch (lift r >>= listen_on c) (fallback c) (during evm)).1
  answered_Listening (err e) evm h = ends_Listening (err e) evm h
  answered_Listening (ok none) evm h = ends_Listening (ok tt) evm h
  answered_Listening (ok (some p)) evm h =
      let (r, e) = get_minimum_pure c evm in rw e (confirmed_Listening r evm h)

module _ (network : Network) (is_watcher : Bool) where
  subscribe-Listening :
      (c : ℕ) (s : Watch)
      → Listening s
      → Listening (subscribe_block_number_by_chain_id network is_watcher c s).1
  unfolding subscribe_block_number_by_chain_id subscribe_new
  subscribe-Listening c s h = decided is_watcher (is_subscribed c s.subscribed) refl
    where
      decided :
          (watching there : Bool)
          → is_subscribed c s.subscribed ≡ there
          → Listening
              (try_catch (subscribe_unless network is_watcher c watching there) (fallback c) s).1
      decided false there e = h
      decided true true e = h
      decided true false e = answered_Listening c s _ _ (
          open-All (Free c s.subscribed) (λ c' uri n. (inl refl, λ same. refl)) network c s.evm
            (All-of s.evm.web_socket_pool (λ p hp. free c s.subscribed p e hp) h))

  renew-Listening :
      (c : ℕ) (s : Watch) → Listening s → Listening (renew_closed network is_watcher c s).1
  unfolding renew_closed
  renew-Listening c s h = renewed _ _ (
      force-All (HasOneListener (without c s.subscribed)) (λ c' uri n. inl refl) network c
        (HasOneListener s.subscribed) s.evm (λ p hp same. inl refl) (away c s.subscribed) kept h)
    where
      kept :
          (p : WebSocketProvider) (state : ReadyState)
          → HasOneListener (without c s.subscribed) p
          → HasOneListener (without c s.subscribed) (record p { ready_state = state })
      kept p state hp = hp

      shown :
          (o : Option WebSocketProvider) (t : Watch) → Listening t → Listening (show_state o t).1
      shown none t h = h
      shown (some p) t h = h

      renewed :
          (r : Result (Option WebSocketProvider)) (evm : Evm)
          → All (HasOneListener (without c s.subscribed)) evm.web_socket_pool
          → Listening
              ((lift r >>= λ provider.
                  subscribe_block_number_by_chain_id network is_watcher c >> show_state provider)
                (record s { subscribed = without c s.subscribed; evm = evm })).1
      renewed (err e) evm h = h
      renewed (ok o) evm h =
          let t : Watch = record s { subscribed = without c s.subscribed; evm = evm } in
          go_on-Listening (subscribe_block_number_by_chain_id network is_watcher c t)
            (λ u. show_state o) (λ u. shown o) (subscribe-Listening c t h)

  check-Listening :
      (c : ℕ) (s : Watch) → Listening s → Listening (check_socket network is_watcher c s).1
  unfolding check_socket
  check-Listening c s h =
      go_on-Listening (on_evm (get_web_socket_provider_by_chain_id network c false) s)
        (renew_if_closed network is_watcher c) looked
        (open-All (HasOneListener s.subscribed) (λ c' uri n. inl refl) network c s.evm h)
    where
      looked :
          (o : Option WebSocketProvider) (t : Watch)
          → Listening t
          → Listening (renew_if_closed network is_watcher c o t).1
      looked none t k = k
      looked (some p) t k = elim (Bool-cases (is_closed p.ready_state)) [
        | inl e ↦ rw e (renew-Listening c t k)
        | inr e ↦ rw e k
      ]

  checks-Listening :
      (cs : List ℕ) (s : Watch)
      → Listening s
      → Listening (checking_if_socket_connection_is_still_open network is_watcher cs s).1
  unfolding checking_if_socket_connection_is_still_open
  checks-Listening [] s h = h
  checks-Listening (c ∷ cs) s h =
      go_on-Listening (check_socket network is_watcher c s) _ (λ u t k. checks-Listening cs t k)
        (check-Listening c s h)

  Step-Listening :
      {chain_ids : List ℕ} {s t : Watch}
      → Step network is_watcher chain_ids s t
      → Listening s
      → Listening t
  unfolding on_block
  Step-Listening (subscribes c) h = subscribe-Listening c _ h
  Step-Listening {chain_ids} checks h = checks-Listening chain_ids _ h
  Step-Listening (opens c {s}) h =
      open-All (HasOneListener s.subscribed) (λ c' uri n. inl refl) network c s.evm h
  Step-Listening (socket_changes c state {s}) h =
      All-update_where (HasOneListener s.subscribed) (is_web_socket_of c) _ s.evm.web_socket_pool
        (λ p hp same. hp) h
  Step-Listening (reconfigured config) h = h
  Step-Listening (mined c n) h = h

  -- In every state that a process reaches, a socket has at most one listener to new blocks, and
  -- has one only while its chain is subscribed to: no renewal of a closed socket leaves two.
  pub Reach-Listening :
      {chain_ids : List ℕ} {s t : Watch}
      → Reach network is_watcher chain_ids s t
      → Listening s
      → Listening t
  Reach-Listening here h = h
  Reach-Listening (then_ r step) h = Step-Listening step (Reach-Listening r h)
