-- ===== src/Cache.antt =====
-- common/helpers/cache.helper.ts. The cache of the package cache-manager is a parameter: a record
-- of its operations. That an entry expires is not part of it.
use nft_tracker.Prelude.{
  List, [], ◌∷◌, ◌++◌, ℕ, Option, none, some, Bool, true, false, ◌==◌, if◌then◌else◌,
}
use nft_tracker.Action.{Action, pure, gets, modify, ◌>>=◌, ◌>>◌}

pub record CacheManager (K V C : Type 0) : Type 0 where
  pub get : K → C → Option V
  pub set : K → V → Option ℕ → C → C

pub record CacheOptions (V : Type 0) : Type 0 where
  pub ttl : Option ℕ
  pub ttl_resolver : Option (V → ℕ)
  pub checker : Option (V → Bool)
  pub force : Bool
  pub async_caching : Bool

-- The cache, what nobody waited for to be set in it, and whatever else the callback changes.
pub record Cached (C S : Type 0) : Type 0 where
  pub cache : C
  pub in_flight : List (C → C)
  pub rest : S

module _ {C S A : Type 0} where
  abbrev pub on_rest : Action S A → Action (Cached C S) A
  on_rest m s = let r = m s.rest in (r.0, record s { rest = r.1 })

-- `ttl ? ttl : undefined`
abbrev positive : Option ℕ → Option ℕ
positive none = none
positive (some n) = if n == 0 then none else some n

module _ {V : Type 0} where
  abbrev pub ttl_of : Option (V → ℕ) → Option ℕ → V → Option ℕ
  ttl_of none ttl v = positive ttl
  ttl_of (some f) ttl v = positive (some (f v))

  abbrev pub should_cache : (V → Bool) → Option (V → Bool) → V → Bool
  should_cache is_defined none v = is_defined v
  should_cache is_defined (some checker) v = checker v

  abbrev pub found_defined : (V → Bool) → Option V → Option V
  found_defined is_defined none = none
  found_defined is_defined (some v) = if is_defined v then some v else none

module _ {K V C S : Type 0} (manager : CacheManager K V C) (is_defined : V → Bool) where
  abbrev pub set_cache : Bool → (C → C) → Cached C S → Cached C S
  set_cache true set s = record s { in_flight = s.in_flight ++ set ∷ [] }
  set_cache false set s = record s { cache = set s.cache }

  unfoldable pub resolve : CacheOptions V → K → Action S V → Action (Cached C S) V
  resolve options key callback = do
    result ← on_rest callback
    modify (λ s.
        if should_cache is_defined options.checker result
        then set_cache options.async_caching
            (manager.set key result (ttl_of options.ttl_resolver options.ttl result)) s
        else s)
    pure result

  abbrev pub resolve_unless : CacheOptions V → K → Action S V → Option V → Action (Cached C S) V
  resolve_unless options key callback (some v) = pure v
  resolve_unless options key callback none = resolve options key callback

  unfoldable pub cache_resolver : CacheOptions V → K → Action S V → Action (Cached C S) V
  cache_resolver options key callback =
      if options.force
      then resolve options key callback
      else gets (λ s. found_defined is_defined (manager.get key s.cache))
        >>= resolve_unless options key callback
