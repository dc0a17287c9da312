-- ===== src/CacheManager/Quiet.antt =====
-- When `get` leaves the network alone.
use vinyl.Common.{
  Bool, none, ◌≡◌, refl, true, false, Option, some, inl, inr, ◌∙◌, sym, Bool-cases, if◌then◌else◌,
  ◌⊎◌, ◌↔◌, arith,
}
use vinyl.Int.{ℤ, pos}
use vinyl.CacheManager.{
  Platform, CacheApi, CacheControl, Instant, CacheEntryOptions, CacheBehavior, served, RequestInfo,
  default, or_else, spread, cache_id, answer, behavior_of, calculate_cache_behavior, get,
}
use vinyl.CacheManager.Behavior.{IsWithin, prefer_cache_iff, reevaluate_iff}
use vinyl.CacheManager.Get.{cached, behavior, directives, none-ne-some, get-fetched}

-- When the network is not asked for an entry of this time, by the directives in force: storing is
-- allowed, and the entry is immutable; or within its age, and it need not be revalidated; or only
-- the cache may be used, and the entry is within its age or the time after it.
abbrev pub IsQuiet : Bool → Bool → Bool → Bool → ℤ → ℤ → Instant → ℤ → Type 0
IsQuiet no_store immutable must_revalidate only_if_cached age stale_time t now =
    (no_store ≡ false)
    × ((immutable ≡ true)
        ⊎ ((must_revalidate ≡ false) × IsWithin now t age (pos 0))
        ⊎ ((only_if_cached ≡ true) × (IsWithin now t age (pos 0) ⊎ IsWithin now t age stale_time)))

-- A directive by its three sources: the overrides of the options win over the header of the
-- response, and that over the defaults of the options.
abbrev pub chosen {ℓ} : {A : Type ℓ} → Option A → Option A → Option A → A → A
chosen (some a) header base fallback = a
chosen none (some a) base fallback = a
chosen none none (some a) fallback = a
chosen none none none fallback = fallback

chosen-or_else {ℓ} :
    {A : Type ℓ} (over header base : Option A) (fallback : A)
    → default (or_else over (or_else header base)) fallback ≡ chosen over header base fallback
chosen-or_else (some a) header base fallback = refl
chosen-or_else none (some a) base fallback = refl
chosen-or_else none none (some a) fallback = refl
chosen-or_else none none none fallback = refl

module _ (p : Platform) (options : CacheEntryOptions p.Response) where
  abbrev pub in_force {ℓ} : {A : Type ℓ} → (CacheControl → Option A) → A → p.Response → A
  in_force field fallback c =
      chosen (field options.cache_control_overrides) (field (p.cache_control c))
        (field options.cache_control_defaults) fallback

  abbrev pub IsLeftAlone : p.Response → ℤ → Type 0
  IsLeftAlone c now =
      IsQuiet (in_force (λ k. k.no_store) false c) (in_force (λ k. k.immutable) false c)
        (in_force (λ k. k.must_revalidate) false c) (in_force (λ k. k.only_if_cached) false c)
        (in_force (λ k. k.max_age) (pos 0) c) (in_force (λ k. k.stale_while_revalidate) (pos 0) c)
        (p.timestamp c) now

abbrev IsQuietBy : CacheControl → Instant → ℤ → Type 0
IsQuietBy c t now =
    IsQuiet (default c.no_store false) (default c.immutable false) (default c.must_revalidate false)
      (default c.only_if_cached false) (default c.max_age (pos 0))
      (default c.stale_while_revalidate (pos 0)) t now

IsQuietBy-spread :
    (d h o : CacheControl) (t : Instant) (now : ℤ)
    → IsQuietBy (spread (spread d h) o) t now
      ≡ IsQuiet
          (chosen o.no_store h.no_store d.no_store false)
          (chosen o.immutable h.immutable d.immutable false)
          (chosen o.must_revalidate h.must_revalidate d.must_revalidate false)
          (chosen o.only_if_cached h.only_if_cached d.only_if_cached false)
          (chosen o.max_age h.max_age d.max_age (pos 0))
          (chosen o.stale_while_revalidate h.stale_while_revalidate d.stale_while_revalidate
            (pos 0))
          t
          now
IsQuietBy-spread d h o t now = λ i.
    IsQuiet (chosen-or_else o.no_store h.no_store d.no_store false i)
      (chosen-or_else o.immutable h.immutable d.immutable false i)
      (chosen-or_else o.must_revalidate h.must_revalidate d.must_revalidate false i)
      (chosen-or_else o.only_if_cached h.only_if_cached d.only_if_cached false i)
      (chosen-or_else o.max_age h.max_age d.max_age (pos 0) i)
      (chosen-or_else o.stale_while_revalidate h.stale_while_revalidate d.stale_while_revalidate
        (pos 0) i)
      t now

behavior-IsQuietBy :
    (c : CacheControl) (t : Instant) (now : ℤ) (b : CacheBehavior)
    → b ≡ calculate_cache_behavior c t now
    → ((if b.prefer_cache then b.reevaluate else true) ≡ false) ↔ IsQuietBy c t now
behavior-IsQuietBy c t now b e =
    let (prefer, preferred) = prefer_cache_iff c t now in
    let (ask, asked) = reevaluate_iff c t now in (λ h. ground arith, λ h. ground arith)

module _ (p : Platform) (api : CacheApi p) (options : CacheEntryOptions p.Response) (now : ℤ)
    (s : api.Store) (r : RequestInfo p.Request) (network : Option p.Response) where
  open p use {Response, cache_control, timestamp}

  abbrev entry : Option Response
  entry = cached p api options now s r network

  abbrev decided : CacheBehavior
  decided = behavior p api options now s r network

  answer-unasked :
      (c : Response) (b : CacheBehavior)
      → (if b.prefer_cache then b.reevaluate else true) ≡ false
      → ((answer p api options now
            (cache_id p api options.cache_key r)
            s
            (some c)
            network
            b).outcome
          ≡ served c)
        × ((answer p api options now
              (cache_id p api options.cache_key r)
              s
              (some c)
              network
              b).after
            ≡ s)
  unfolding answer
  answer-unasked c b h = elim (Bool-cases b.prefer_cache) [
    | inl t ↦ let q : b.reevaluate ≡ false = rw t at h in (rw t refl, rw (t, q) refl)
    | inr t ↦ let no : ⊥ = ground arith in elim no [ ]
  ]

  decided-entry :
      (c : Response)
      → entry ≡ some c
      → decided
        ≡ calculate_cache_behavior (directives p api options now s r network) (timestamp c) now
  unfolding behavior_of
  decided-entry c e = rw e refl

  fetched-entry :
      (c : Response)
      → entry ≡ some c
      → (get p api options now s r network).fetched
        ≡ (if decided.prefer_cache then decided.reevaluate else true)
  fetched-entry c e = get-fetched p api options now s r network ∙ rw e refl

  -- With an entry to look at, `get` goes on with the cache as it was.
  get-answer :
      (c : Response)
      → entry ≡ some c
      → get p api options now s r network
        ≡ answer p api options now (cache_id p api options.cache_key r) s (some c) network decided
  unfolding get
  get-answer c e = elim (Bool-cases (default options.cache_control_overrides.no_store false)) [
    | inl t ↦ let no : ⊥ = none-ne-some p api options now c (rw t at e) in elim no [ ]
    | inr t ↦
        let found : api.match s (cache_id p api options.cache_key r) ≡ some c = rw t at e in
        rw (t, found) refl
  ]

  IsQuietBy-entry :
      (c : Response)
      → entry ≡ some c
      → IsQuietBy (directives p api options now s r network) (timestamp c) now
        ≡ IsLeftAlone p options c now
  IsQuietBy-entry c e = rw e (
      IsQuietBy-spread options.cache_control_defaults (cache_control c)
        options.cache_control_overrides (timestamp c) now)

  -- With a cached entry, `get` leaves the network alone exactly if the directives in force (of the
  -- overrides, else of the entry's header, else of the defaults) allow to store it and it is
  -- immutable, or within its age and need not be revalidated, or only the cache may be used and it
  -- is within its age or its stale-while-revalidate time. It then serves the entry and leaves the
  -- cache as it was.
  pub get-unasked :
      (c : Response)
      → entry ≡ some c
      → (((get p api options now s r network).fetched ≡ false) ↔ IsLeftAlone p options c now)
        × ((get p api options now s r network).fetched ≡ false
            → ((get p api options now s r network).outcome ≡ served c)
              × ((get p api options now s r network).after ≡ s))
  unfolding get
  get-unasked c e =
      let b =
        behavior-IsQuietBy (directives p api options now s r network) (timestamp c) now decided
          (decided-entry c e) in
      let f = fetched-entry c e in
      (
        rw f (rw (IsQuietBy-entry c e) at b),
        λ h. rw (get-answer c e) (answer-unasked c decided (sym f ∙ h)),
      )
