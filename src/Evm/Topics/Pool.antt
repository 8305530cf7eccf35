-- ===== src/Evm/Topics/Pool.antt =====
-- The pool of topics once the contracts have been gone through.
use nft_tracker.Prelude.{
  ℕ, ◌≡◌, refl, ap, ◌∙◌, Text, Bool, true, false, List, [], ◌∷◌, ◌==◌, ◌===◌, ◌&&◌, ◌||◌, any,
  to_lower, Bool-cases, inl, inr, eq_of_===, arith,
}
use nft_tracker.Store.Entities.{Contract}
use nft_tracker.Evm.Topics.{
  TopicKey, same_key, get_topic_key, has_topic, add_topic, sync_local_cache, tracks,
}

same_fields :
    (t t' u a a' b : Text) (c c' d : ℕ)
    → (t' === t && c' == c && a' === a) ≡ true
    → (t' === u && c' == d && a' === b) ≡ (t === u && c == d && a === b)
same_fields t t' u a a' b c c' d same = ground (arith, same, eq_of_=== t' t, eq_of_=== a' a)

has_topic-add_topic :
    (k l : TopicKey) (pool : List TopicKey)
    → has_topic (add_topic k pool) l ≡ (same_key l k || has_topic pool l)
has_topic-add_topic k l [] = refl
has_topic-add_topic k l (x ∷ pool) = elim (Bool-cases (same_key k x)) [
  | inl e ↦
      rw
        (
          e,
          same_fields k.topic x.topic l.topic k.address x.address l.address k.chain_id x.chain_id
              l.chain_id e,
        )
        (absorbed (same_key l k) (has_topic pool l))
  | inr e ↦
      rw (e, has_topic-add_topic k l pool)
        (swapped (same_key l x) (same_key l k) (has_topic pool l))
]
  where
    absorbed : (a b : Bool) → (a || b) ≡ (a || (a || b))
    absorbed true b = refl
    absorbed false b = refl

    swapped : (a b c : Bool) → (a || (b || c)) ≡ (b || (a || c))
    swapped true true c = refl
    swapped true false c = refl
    swapped false b c = refl

gathered : (e t u h r : Bool) → (((e && t && u) || h) || (e && r)) ≡ (h || (e && ((t && u) || r)))
gathered false t u h r = refl
gathered true t u h r = swapped (t && u) h r
  where
    swapped : (a b c : Bool) → ((a || b) || c) ≡ (b || (a || c))
    swapped true true c = refl
    swapped true false c = refl
    swapped false b c = refl

-- After the contracts of the table have been gone through, the pool has the key of an event
-- exactly when it had it before, or the event is the transfer and some contract has its chain and
-- its address, whatever the case of the letters.
pub sync_local_cache-has_topic :
    (event_topic topic address : Text) (chain_id : ℕ) (cs : List Contract) (pool : List TopicKey)
    → has_topic (sync_local_cache event_topic cs pool) (get_topic_key topic address chain_id) ≡ (
        has_topic pool (get_topic_key topic address chain_id)
        || (event_topic === topic && any (tracks chain_id address) cs))
unfolding sync_local_cache get_topic_key
sync_local_cache-has_topic event_topic topic address chain_id [] pool =
    gathered_none (event_topic === topic) (has_topic pool (get_topic_key topic address chain_id))
  where
    gathered_none : (e h : Bool) → h ≡ (h || (e && false))
    gathered_none true true = refl
    gathered_none true false = refl
    gathered_none false true = refl
    gathered_none false false = refl
sync_local_cache-has_topic event_topic topic address chain_id (c ∷ cs) pool =
    sync_local_cache-has_topic event_topic topic address chain_id cs
      (add_topic (get_topic_key event_topic c.address c.chain_id) pool)
    ∙ ap (λ h. h || (event_topic === topic && any (tracks chain_id address) cs))
        (has_topic-add_topic (get_topic_key event_topic c.address c.chain_id)
          (get_topic_key topic address chain_id) pool)
    ∙ gathered (event_topic === topic) (c.chain_id == chain_id)
        (to_lower c.address === to_lower address)
        (has_topic pool (get_topic_key topic address chain_id)) (any (tracks chain_id address) cs)
