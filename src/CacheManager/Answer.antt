-- ===== src/CacheManager/Answer.antt =====
-- The parts of `get` after the cache was read: what they serve, store and ask of the network.
use vinyl.Common.{
  ◌≡◌, refl, Bool, true, false, Option, none, some, inl, inr, ap, Bool-cases, if◌then◌else◌, ◌⊎◌,
  arith, not, ◌&&◌,
}
use vinyl.Int.{ℤ}
use vinyl.CacheManager.{
  Platform, CacheApi, CacheEntryOptions, CacheBehavior, Outcome, served, not_cached, network_error,
  RequestInfo, default, is_some, calculate_cache_control, is_cacheable_request_key,
  is_valid_response, put, maybe_cache, settle_network, prefer_network, answer,
}

module _ (p : Platform) (api : CacheApi p) (options : CacheEntryOptions p.Response) (now : ℤ) where
  open p use {Request, Response, stamped, body_used}
  open api use {Store, match, store, delete, same, same_refl, match-store, match-delete}

  -- The cached response that `get` looks at: none if the options forbid storing.
  abbrev pub looked_up : Store → RequestInfo Request → Option Response
  looked_up s id =
      if default options.cache_control_overrides.no_store false then none else match s id

  -- Conditions under which a network response is stored.
  abbrev pub IsStorable : RequestInfo Request → Response → Type 0
  IsStorable id r =
      (default
          (calculate_cache_control p api (some r) options.cache_control_defaults
            options.cache_control_overrides).no_store
          false
        ≡ false)
      × (is_cacheable_request_key p api id ≡ true)
      × (is_valid_response p api options r ≡ true)
      × (body_used r ≡ false)

  pub some_inj : (a b : Response) → ◌≡◌ {A = Option Response} (some a) (some b) → a ≡ b
  some_inj a b e = cc

  pub if_not : (b : Bool) (x y : Outcome Response) → (if not b then x else y) ≡ (if b then y else x)
  if_not true x y = refl
  if_not false x y = refl

  module _ (id : RequestInfo Request) where
    abbrev storable : Response → Bool
    storable r =
        not (
          default
            (calculate_cache_control p api (some r) options.cache_control_defaults
              options.cache_control_overrides).no_store
            false)
        && (is_cacheable_request_key p api id && is_valid_response p api options r)

    pub maybe_cache-cases :
        (s : Store) (network : Option Response)
        → (maybe_cache p api options now id s network ≡ s)
          ⊎ ((r : Response) × (network ≡ some r)
              × IsStorable id r
              × (maybe_cache p api options now id s network ≡ store s id (stamped now r)))
    unfolding maybe_cache
    maybe_cache-cases s none = inl refl
    maybe_cache-cases s (some r) = elim (Bool-cases (storable r)) [
      | inl t ↦ elim (Bool-cases (body_used r)) [
        | inl u ↦ inl (unfold put in rw (t, u) refl)
        | inr u ↦
            inr
              (r, refl, (ground arith, ground arith, ground arith, u), unfold put in rw (t, u) refl)
      ]
      | inr t ↦ inl (rw t refl)
    ]

    settle_network-served :
        (allow : Bool) (cached network : Option Response) (r : Response)
        → settle_network p api options now id allow cached network ≡ served r
        → (cached ≡ some r)
          ⊎ ((network ≡ some r) × ((is_valid_response p api options r ≡ true) ⊎ (cached ≡ none)))
    unfolding settle_network
    settle_network-served allow none none r e = cc
    settle_network-served allow (some c) none r e = ground arith
    settle_network-served allow none (some n) r e = inr (ground arith, inr refl)
    settle_network-served allow (some c) (some n) r e =
        elim (Bool-cases (is_valid_response p api options n)) [
          | inl v ↦ inr (ground arith, inl (ground arith))
          | inr v ↦ inl (ground arith)
        ]

    not_cached-ne-served : (r : Response) → ◌≡◌ {A = Outcome Response} not_cached (served r) → ⊥
    not_cached-ne-served r e = cc

    served-injective : (a b : Response) → ◌≡◌ {A = Outcome Response} (served a) (served b) → a ≡ b
    served-injective a b e = cc

    -- The ways in which an answer ends.
    pub answer-after :
        (s : Store) (cached network : Option Response) (b : CacheBehavior)
        → ((answer p api options now id s cached network b).after ≡ s)
          ⊎ ((answer p api options now id s cached network b).after
              ≡ maybe_cache p api options now id s network)
    unfolding answer prefer_network
    answer-after s none network b = elim (Bool-cases b.allow_network) [
      | inl t ↦ inr (rw t refl)
      | inr t ↦ inl (rw t refl)
    ]
    answer-after s (some c) network b = elim (Bool-cases b.prefer_cache) [
      | inl t ↦ elim (Bool-cases b.reevaluate) [
        | inl u ↦ inr (rw (t, u) refl)
        | inr u ↦ inl (rw (t, u) refl)
      ]
      | inr t ↦ inr (rw t refl)
    ]

    pub answer-served :
        (s : Store) (cached network : Option Response) (b : CacheBehavior) (r : Response)
        → (answer p api options now id s cached network b).outcome ≡ served r
        → (cached ≡ some r)
          ⊎ ((network ≡ some r)
              × ((is_valid_response p api options r ≡ true) ⊎ (cached ≡ none))
              × ((answer p api options now id s cached network b).fetched ≡ true))
    unfolding answer prefer_network
    answer-served s none network b r e = elim (Bool-cases b.allow_network) [
      | inl t ↦ elim (settle_network-served b.allow_cache none network r (rw t at e)) [
        | inl k ↦ inl k
        | inr (k, v) ↦ inr (k, v, rw t refl)
      ]
      | inr t ↦ absurd (not_cached-ne-served r (rw t at e))
    ]
    answer-served s (some c) network b r e = elim (Bool-cases b.prefer_cache) [
      | inl t ↦ inl (ap some (served-injective c r (rw t at e)))
      | inr t ↦ elim (settle_network-served b.allow_cache (some c) network r (rw t at e)) [
        | inl k ↦ inl k
        | inr (k, v) ↦ inr (k, v, rw t refl)
      ]
    ]

    pub answer-miss :
        (s : Store) (cached network : Option Response) (b : CacheBehavior)
        → cached ≡ none
        → b.allow_network ≡ false
        → (answer p api options now id s cached network b).outcome ≡ not_cached
    unfolding answer
    answer-miss s none network b e c = rw c refl
    answer-miss s (some x) network b e c = cc

    pub answer-offline :
        (s : Store) (cached network : Option Response) (c : Response) (b : CacheBehavior)
        → cached ≡ some c
        → network ≡ none
        → (b.prefer_cache ≡ true → b.allow_cache ≡ true)
        → (answer p api options now id s cached network b).outcome
          ≡ (if b.allow_cache then served c else network_error)
    unfolding answer prefer_network
    answer-offline s none network c b e n h = cc
    answer-offline s (some x) none c b e n h =
        let same : x ≡ c = some_inj x c e in
        elim (Bool-cases b.prefer_cache) [
          | inl t ↦ rw (t, h t) (ap served same)
          | inr t ↦
              rw t (ap (λ (y : Response). if b.allow_cache then served y else network_error) same)
        ]
    answer-offline s (some x) (some y) c b e n h = cc

    pub answer-fetched :
        (s : Store) (cached network : Option Response) (b : CacheBehavior)
        → (answer p api options now id s cached network b).fetched ≡ (
            if is_some cached
            then (if b.prefer_cache then b.reevaluate else true)
            else b.allow_network)
    unfolding answer prefer_network
    answer-fetched s none network b = ground arith
    answer-fetched s (some c) network b = ground arith
