-- ===== src/CacheManager/Get.antt =====
-- What `get` returns, stores and asks of the network.
use vinyl.Common.{
  ◌≡◌, refl, Bool, true, false, Option, none, some, inl, inr, ◌∙◌, sym, ap, Bool-cases,
  if◌then◌else◌, ◌⊎◌, arith, not, ◌&&◌,
}
use vinyl.Int.{ℤ}
use vinyl.CacheManager.{
  Platform, CacheApi, CacheControl, CacheEntryOptions, CacheBehavior, served, not_cached,
  network_error, RequestInfo, default, is_some, cache_id, calculate_cache_control,
  is_valid_response, behavior_of, get,
}
use vinyl.CacheManager.Answer.{
  looked_up, IsStorable, maybe_cache-cases, answer-after, answer-served, answer-miss,
  answer-offline, answer-fetched, if_not, some_inj,
}

module _ (p : Platform) (api : CacheApi p) (options : CacheEntryOptions p.Response) (now : ℤ) where
  open p use {Request, Response, stamped, body_used}
  open api use {Store, match, store, delete, same, same_refl, match-store, match-delete}

  pub none-ne-some : (x : Response) → ◌≡◌ {A = Option Response} none (some x) → ⊥
  none-ne-some x e = cc

  true-ne-false : ◌≡◌ {A = Bool} true false → ⊥
  true-ne-false e = cc

  -- The cache that `get` goes on with once it has read the entry.
  abbrev remaining : Store → RequestInfo Request → Store
  remaining s id = if default options.cache_control_overrides.no_store false then delete s id else s

  module _ (s : Store) (r : RequestInfo Request) (network : Option Response) where
    abbrev id : RequestInfo Request
    id = cache_id p api options.cache_key r

    -- The entry that `get` looks at, and what its directives make of it.
    abbrev pub cached : Option Response
    cached = looked_up p api options now s id

    abbrev pub behavior : CacheBehavior
    behavior = behavior_of p api options now cached

    get-after :
        ((get p api options now s r network).after ≡ remaining s id)
        ⊎ ((response : Response) × (network ≡ some response)
            × IsStorable p api options now id response
            × ((get p api options now s r network).after
                ≡ store (remaining s id) id (stamped now response)))
    unfolding get
    get-after = elim (answer-after p api options now id (remaining s id) cached network behavior) [
      | inl e ↦ inl e
      | inr e ↦ elim (maybe_cache-cases p api options now id (remaining s id) network) [
        | inl k ↦ inl (e ∙ k)
        | inr (response, n, ok, k) ↦ inr (response, n, ok, e ∙ k)
      ]
    ]

    match-remaining :
        (j : RequestInfo Request) → same id j ≡ false → match (remaining s id) j ≡ match s j
    match-remaining j e =
        elim (Bool-cases (default options.cache_control_overrides.no_store false)) [
          | inl t ↦ rw (t, match-delete s id j, e) refl
          | inr t ↦ rw t refl
        ]

    match-remaining_self : (x : Response) → match (remaining s id) id ≡ some x → match s id ≡ some x
    match-remaining_self x h =
        elim (Bool-cases (default options.cache_control_overrides.no_store false)) [
          | inl t ↦ absurd (none-ne-some x (rw (t, match-delete s id id, same_refl id) at h))
          | inr t ↦ rw t at h
        ]

    -- After `get` an entry under the request's cache id is the one that was there, or the stamped
    -- answer of the network to this call, which then is valid, cacheable and not marked no-store.
    pub get-stores :
        (x : Response)
        → match (get p api options now s r network).after id ≡ some x
        → (match s id ≡ some x)
          ⊎ ((response : Response) × (network ≡ some response)
              × IsStorable p api options now id response
              × (x ≡ stamped now response))
    get-stores x h = elim get-after [
      | inl e ↦ inl (match-remaining_self x (ap (λ (a : Store). match a id) (sym e) ∙ h))
      | inr (response, n, ok, e) ↦
          let stored : match (get p api options now s r network).after id
              ≡ some (stamped now response) =
            rw (e, match-store (remaining s id) id id (stamped now response), same_refl id) refl in
          inr
            (response, n, ok, some_inj p api options now x (stamped now response) (sym h ∙ stored))
    ]

    -- Entries under other cache ids stay as they are.
    get-keeps_other :
        (j : RequestInfo Request)
        → same id j ≡ false
        → match (get p api options now s r network).after j ≡ match s j
    get-keeps_other j o = elim get-after [
      | inl e ↦ rw e (match-remaining j o)
      | inr (response, n, ok, e) ↦
          rw (e, match-store (remaining s id) id j (stamped now response), o) (match-remaining j o)
    ]

    -- If the caller forbids storing, the entry of the request is gone afterwards.
    pub get-no_store :
        options.cache_control_overrides.no_store ≡ some true
        → match (get p api options now s r network).after id ≡ none
    get-no_store h = elim get-after [
      | inl e ↦ rw (e, h, match-delete s id id, same_refl id) refl
      | inr (response, n, ok, e) ↦ absurd (true-ne-false (rw h at ok.0))
    ]

    looked_up-some : (x : Response) → cached ≡ some x → match s id ≡ some x
    looked_up-some x h =
        elim (Bool-cases (default options.cache_control_overrides.no_store false)) [
          | inl t ↦ absurd (none-ne-some x (rw t at h))
          | inr t ↦ rw t at h
        ]

    -- What `get` serves is the cached entry, or the network's answer to this call; an answer that is
    -- not valid is served only if there was no cached entry to serve instead. That holds for all
    -- directives, also if a no-store of the defaults or of the entry's own header forbids storing.
    pub get-serves :
        (x : Response)
        → (get p api options now s r network).outcome ≡ served x
        → (match s id ≡ some x)
          ⊎ ((network ≡ some x)
              × ((is_valid_response p api options x ≡ true) ⊎ (cached ≡ none))
              × ((get p api options now s r network).fetched ≡ true))
    unfolding get
    get-serves x h =
        elim (answer-served p api options now id (remaining s id) cached network behavior x h) [
          | inl e ↦ inl (looked_up-some x e)
          | inr k ↦ inr k
        ]

    pub get-fetched : (get p api options now s r network).fetched ≡ (
        if is_some cached
        then (if behavior.prefer_cache then behavior.reevaluate else true)
        else behavior.allow_network)
    unfolding get
    get-fetched = answer-fetched p api options now id (remaining s id) cached network behavior

    -- The directives that hold for the entry that `get` looks at.
    abbrev pub directives : CacheControl
    directives =
        calculate_cache_control p api cached options.cache_control_defaults
          options.cache_control_overrides

    -- The entry that `get` looks at is preferred to the network.
    abbrev pub is_preferred : Bool
    is_preferred = behavior.prefer_cache

    only_if_cached-behavior :
        default directives.only_if_cached false ≡ true
        → (behavior.allow_network ≡ false) × (behavior.reevaluate ≡ false)
    unfolding behavior_of
    only_if_cached-behavior h = (ground arith, ground arith)

    -- If only the cache may be used, a miss is an error, and still the network is asked exactly
    -- when there is an entry that is not preferred, such as a stale one.
    pub get-only_if_cached :
        default directives.only_if_cached false ≡ true
        → ((get p api options now s r network).fetched ≡ (is_some cached && not is_preferred))
          × (cached ≡ none → (get p api options now s r network).outcome ≡ not_cached)
    unfolding get
    get-only_if_cached h =
        let (closed, quiet) = only_if_cached-behavior h in
        (
          get-fetched ∙ ground arith,
          λ e. answer-miss p api options now id (remaining s id) cached network behavior e closed,
        )

    offline-behavior :
        (b : CacheBehavior)
        → b ≡ behavior
        → (b.allow_cache ≡ not (default directives.no_store false))
          × (b.prefer_cache ≡ true → b.allow_cache ≡ true)
    unfolding behavior_of
    offline-behavior b e = (ground arith, λ h. ground arith)

    -- If the network fails, a cached entry, however old, is served unless its directives forbid
    -- storing, also if it must be revalidated.
    pub get-offline :
        (c : Response)
        → cached ≡ some c
        → network ≡ none
        → (get p api options now s r network).outcome
          ≡ (if default directives.no_store false then network_error else served c)
    unfolding get
    get-offline c e n =
        let (allow, prefer) = offline-behavior behavior refl in
        answer-offline p api options now id (remaining s id) cached network c behavior e n prefer
        ∙ rw allow
            (if_not p api options now (default directives.no_store false) (served c) network_error)
