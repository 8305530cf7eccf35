-- ===== src/Evm/Renewal.antt =====
-- What the renewal of a closed socket leads to.
use nft_tracker.Prelude.{
  ℕ, ◌≡◌, refl, ap, ◌∙◌, Text, Option, none, some, Bool, true, false, List, [], ◌∷◌, ◌==◌, inl, inr,
  find_one, update_where, upsert_row, upserted, find_one-upsert_row, Bool-cases, arith,
}
use nft_tracker.Store.Exec.{Result, ok, err}
use nft_tracker.Action.{go_on}
use nft_tracker.Evm.{
  Evm, Network, WebSocketProvider, ReadyState, is_web_socket_of, set_web_socket, new_socket,
  pool_web_socket, make_web_socket, drop_web_socket, renew_web_socket,
  get_web_socket_provider_by_chain_id, get_wss_url_on_configuration_or_default,
  get_minimum_transaction_confirmation,
}
use nft_tracker.Evm.Sockets.{
  Watch, is_subscribed, without, listen, subscribe_new, subscribe_block_number_by_chain_id,
  renew_closed,
}

==_refl : (n : ℕ) → (n == n) ≡ true
==_refl n = ground arith

module _ {A : Type 0} (p : A → Bool) where
  -- an update by the same test changes the row that is found
  find_one-changed :
      (f : A → A) (xs : List A) {a : A}
      → ((x : A) → p (f x) ≡ p x)
      → find_one p xs ≡ some a
      → find_one p (update_where p f xs) ≡ some (f a)
  find_one-changed f [] keeps e = cc
  find_one-changed f (x ∷ xs) {a} keeps e = elim (Bool-cases (p x)) [
    | inl t ↦ rw t (rw (keeps x ∙ t) (ap (λ o. mapped o) (rw t at e)))
    | inr t ↦ rw t (rw t (find_one-changed f xs keeps (rw t at e)))
  ]
    where
      mapped : Option A → Option A
      mapped none = none
      mapped (some x) = some (f x)

is_subscribed-without_self : (c : ℕ) (subs : List ℕ) → is_subscribed c (without c subs) ≡ false
is_subscribed-without_self c [] = refl
is_subscribed-without_self c (d ∷ subs) = ground (arith, is_subscribed-without_self c subs)

settled :
    {A B : Type 0} (r : Result A) (g : A → Result B) (s t : Evm) {b : B}
    → (go_on r (λ a u. (g a, u)) s).0 ≡ ok b
    → go_on r (λ a u. (g a, u)) t ≡ (ok b, t)
settled (ok a) g s t e = ap (λ x. (x, t)) e
settled (err x) g s t e = cc

module _ (network : Network) (c : ℕ) where
  abbrev renewed_pool : ReadyState → ℕ → Text → Evm → Evm
  renewed_pool state first uri s = pool_web_socket (new_socket c (first ∷ uri) s.made) (
      set_web_socket c (λ q. record q { ready_state = state })
        (set_web_socket c (λ q. record q { listeners = [] }) s))

  pooled_anew :
      (sock : WebSocketProvider) (xs : List WebSocketProvider)
      → sock.chain_id ≡ c
      → find_one (is_web_socket_of c) (upsert_row (is_web_socket_of c) (λ old. sock) sock xs)
        ≡ some sock
  pooled_anew sock xs e =
      let own : is_web_socket_of c sock ≡ true = ap (λ n. n == c) e ∙ ==_refl c in
      find_one-upsert_row (is_web_socket_of c) (λ old. sock) sock xs (λ x. own) own
      ∙ always (find_one (is_web_socket_of c) xs)
    where
      always : (o : Option WebSocketProvider) → some (upserted (λ old. sock) sock o) ≡ some sock
      always none = refl
      always (some x) = refl

  forced :
      (s : Evm) (p : WebSocketProvider) (state : ReadyState) (first : ℕ) (uri : Text)
      → find_one (is_web_socket_of c) s.web_socket_pool ≡ some p
      → network.destroy p ≡ ok state
      → (get_wss_url_on_configuration_or_default c s).0 ≡ ok (first ∷ uri)
      → get_web_socket_provider_by_chain_id network c true s
        ≡ (ok (some (new_socket c (first ∷ uri) s.made)), renewed_pool state first uri s)
  unfolding get_web_socket_provider_by_chain_id drop_web_socket renew_web_socket make_web_socket
      get_wss_url_on_configuration_or_default
  forced s p state first uri found destroyed url =
      rw (found, destroyed)
        (rw
          (settled s.config _ s
            (set_web_socket c (λ q. record q { ready_state = state })
              (set_web_socket c (λ q. record q { listeners = [] }) s))
            url)
          refl)

  subscribed_again :
      (t : Watch) (sock : WebSocketProvider) (n : ℕ)
      → is_subscribed c t.subscribed ≡ false
      → find_one (is_web_socket_of c) t.evm.web_socket_pool ≡ some sock
      → (get_minimum_transaction_confirmation c t.evm).0 ≡ ok n
      → subscribe_block_number_by_chain_id network true c t
        ≡ (ok tt, record t { subscribed = c ∷ t.subscribed; evm = listen c n t.evm })
  unfolding subscribe_block_number_by_chain_id subscribe_new get_web_socket_provider_by_chain_id
      get_minimum_transaction_confirmation
  subscribed_again t sock n new found minimum =
      rw new (rw found (rw (settled t.evm.config _ t.evm t.evm minimum) refl))

  minimum_after :
      (s : Evm) (state : ReadyState) (first : ℕ) (uri : Text) {n : ℕ}
      → (get_minimum_transaction_confirmation c s).0 ≡ ok n
      → (get_minimum_transaction_confirmation c (renewed_pool state first uri s)).0 ≡ ok n
  unfolding get_minimum_transaction_confirmation
  minimum_after s state first uri e =
      ap (λ r. r.0) (settled s.config _ s (renewed_pool state first uri s) e)

  is_subscribed_self : (subs : List ℕ) → is_subscribed c (c ∷ subs) ≡ true
  is_subscribed_self subs = rw (==_refl c) refl

  -- The renewal of a socket that the pool has, in a watcher, when the old one can be closed and
  -- the configuration answers: it returns, and the chain is subscribed to on a socket made anew
  -- at the address that the configuration names, with one listener that waits for as many
  -- confirmations as it says.
  pub renew_closed-listen :
      (s : Watch) (p : WebSocketProvider) (state : ReadyState) (first : ℕ) (uri : Text) (n : ℕ)
      → find_one (is_web_socket_of c) s.evm.web_socket_pool ≡ some p
      → network.destroy p ≡ ok state
      → (get_wss_url_on_configuration_or_default c s.evm).0 ≡ ok (first ∷ uri)
      → (get_minimum_transaction_confirmation c s.evm).0 ≡ ok n
      → let r = renew_closed network true c s in
        (r.0 ≡ ok tt)
        × (find_one (is_web_socket_of c) r.1.evm.web_socket_pool
            ≡ some (record (new_socket c (first ∷ uri) s.evm.made) { listeners = n ∷ [] }))
        × (is_subscribed c r.1.subscribed ≡ true)
  unfolding renew_closed
  renew_closed-listen s p state first uri n found destroyed url minimum =
      let evm = renewed_pool state first uri s.evm in
      let t : Watch = record s { subscribed = without c s.subscribed; evm = evm } in
      let there = pooled_anew (new_socket c (first ∷ uri) s.evm.made) _ refl in
      rw (forced s.evm p state first uri found destroyed url) (
        rw
          (subscribed_again t (new_socket c (first ∷ uri) s.evm.made) n
            (is_subscribed-without_self c s.subscribed) there
            (minimum_after s.evm state first uri minimum))
          (
            refl,
            find_one-changed (is_web_socket_of c) _ evm.web_socket_pool (λ x. refl) there,
            is_subscribed_self (without c s.subscribed),
          ))
