-- ===== src/CacheManager.antt =====
-- packages/vinyl-cache-manager/src/cacheManager/CacheManager.ts: cached fetches with cache-control
-- directives. The Cache API, responses and the network are the record `Platform` and arguments.
pub mod Behavior
pub mod Answer
pub mod Get
pub mod Quiet
pub mod Clean
use Prim.Native.String
use Prim.Native.String.{String}
use vinyl.Common.{
  ℕ, suc, ◌+◌, ◌≡◌, Bool, true, false, not, ◌&&◌, ◌||◌, Option, none, some, List, [], ◌∷◌,
  if◌then◌else◌,
}
use vinyl.Int.{ℤ, pos, ◌+ℤ◌, scale, ltb_ℤ}

-- `CacheControl`: an absent directive is `none`. (A directive that is present with the value
-- `undefined` is not represented.)
pub record CacheControl : Type 0 where
  pub max_age : Option ℤ
  pub no_cache : Option Bool
  pub no_store : Option Bool
  pub must_revalidate : Option Bool
  pub public_cache : Option Bool
  pub private_cache : Option Bool
  pub immutable : Option Bool
  pub stale_while_revalidate : Option ℤ
  pub stale_if_error : Option ℤ
  pub only_if_cached : Option Bool

-- `{}`
abbrev pub no_directives : CacheControl
no_directives = record {
  max_age = none;
  no_cache = none;
  no_store = none;
  must_revalidate = none;
  public_cache = none;
  private_cache = none;
  immutable = none;
  stale_while_revalidate = none;
  stale_if_error = none;
  only_if_cached = none;
}

-- A later spread of an object literal wins where it has the key.
abbrev pub or_else {ℓ} : {A : Type ℓ} → Option A → Option A → Option A
or_else none a = a
or_else (some b) a = some b

abbrev pub is_some {ℓ} : {A : Type ℓ} → Option A → Bool
is_some none = false
is_some (some a) = true

-- `{...base, ...over}`
abbrev pub spread : CacheControl → CacheControl → CacheControl
spread base over = record {
  max_age = or_else over.max_age base.max_age;
  no_cache = or_else over.no_cache base.no_cache;
  no_store = or_else over.no_store base.no_store;
  must_revalidate = or_else over.must_revalidate base.must_revalidate;
  public_cache = or_else over.public_cache base.public_cache;
  private_cache = or_else over.private_cache base.private_cache;
  immutable = or_else over.immutable base.immutable;
  stale_while_revalidate = or_else over.stale_while_revalidate base.stale_while_revalidate;
  stale_if_error = or_else over.stale_if_error base.stale_if_error;
  only_if_cached = or_else over.only_if_cached base.only_if_cached;
}

-- `value ?? default`
abbrev pub default {ℓ} : {A : Type ℓ} → Option A → A → A
default none d = d
default (some a) d = a

-- A point in time in milliseconds. `unknown` is negative infinity or NaN, for which the
-- comparisons of the source are false.
pub data Instant : Type 0 where
  unknown : Instant
  at : ℤ → Instant

abbrev pub plus : Instant → ℤ → Instant
plus unknown d = unknown
plus (at t) d = at (t +ℤ d)

-- `instant > now`
abbrev pub is_after : Instant → ℤ → Bool
is_after unknown now = false
is_after (at t) now = ltb_ℤ now t

pub record CacheBehavior : Type 0 where
  pub allow_cache : Bool
  pub prefer_cache : Bool
  pub allow_network : Bool
  pub reevaluate : Bool

abbrev pub stale_at : CacheControl → Instant → Instant
stale_at control timestamp = plus timestamp (scale 1000 (default control.max_age (pos 0)))

-- `calculateCacheBehavior`
unfoldable pub calculate_cache_behavior : CacheControl → Instant → ℤ → CacheBehavior
calculate_cache_behavior control timestamp now =
    let allow_cache = not (default control.no_store false) in
    let stale = stale_at control timestamp in
    let is_fresh = is_after stale now in
    let immutable = default control.immutable false in
    let allow_network = not (default control.only_if_cached false) in
    let stale_while_revalidate = default control.stale_while_revalidate (pos 0) in
    record {
      prefer_cache =
          allow_cache
          && (is_fresh
              || (is_after (plus stale (scale 1000 stale_while_revalidate)) now || immutable));
      reevaluate =
          allow_network
          && (not immutable && (default control.must_revalidate false || not is_fresh));
      allow_cache = allow_cache;
      allow_network = allow_network;
    }

-- What the browser provides.
pub record Platform : Type 1 where
  -- `Request` objects, and whether their method is GET.
  pub Request : Type 0
  pub is_get : Request → Bool
  -- `Response` objects: `ok`, `bodyUsed`, the directives that `parseCacheControl` reads from the
  -- Cache-Control header, and the time that `getCachedTimestamp` reads from the header
  -- X-Cached-Timestamp.
  pub Response : Type 0
  pub ok : Response → Bool
  pub body_used : Response → Bool
  pub cache_control : Response → CacheControl
  pub timestamp : Response → Instant
  -- The copy of a response that `put` stores, with the time appended to its headers.
  pub stamped : ℤ → Response → Response

-- `RequestInfo`: a URL or a `Request`.
pub data RequestInfo (Request : Type 0) : Type 0 where
  url : String → RequestInfo Request
  request : Request → RequestInfo Request

-- One of the keys addresses the same entry.
abbrev pub any_same {ℓ} : {K : Type ℓ} → (K → K → Bool) → List K → K → Bool
any_same same [] j = false
any_same same (k ∷ ks) j = if same k j then true else any_same same ks j

-- A `Cache` object of the browser.
pub record CacheApi (p : Platform) : Type 1 where
  pub Store : Type 0
  pub match : Store → RequestInfo p.Request → Option p.Response
  pub store : Store → RequestInfo p.Request → p.Response → Store
  pub delete : Store → RequestInfo p.Request → Store
  pub keys : Store → List (RequestInfo p.Request)
  -- Whether two requests address the same entry.
  pub same : RequestInfo p.Request → RequestInfo p.Request → Bool
  pub same_refl : (k : RequestInfo p.Request) → same k k ≡ true
  pub match-same :
      (s : Store) (k j : RequestInfo p.Request) → same k j ≡ true → match s k ≡ match s j
  pub match-store :
      (s : Store) (k j : RequestInfo p.Request) (r : p.Response)
      → match (store s k r) j ≡ (if same k j then some r else match s j)
  pub match-delete :
      (s : Store) (k j : RequestInfo p.Request)
      → match (delete s k) j ≡ (if same k j then none else match s j)
  pub keys-match :
      (s : Store) (j : RequestInfo p.Request) (r : p.Response)
      → match s j ≡ some r
      → any_same same (keys s) j ≡ true

-- `CacheEntryOptions`. With no `responseIsValid` every response is valid; an empty `cacheKey`
-- is as none.
pub record CacheEntryOptions (Response : Type 0) : Type 0 where
  pub cache_key : Option String
  pub cache_control_defaults : CacheControl
  pub cache_control_overrides : CacheControl
  pub response_is_valid : Response → Bool

-- What the promise of `get` settles to.
pub data Outcome (Response : Type 0) : Type 0 where
  served : Response → Outcome Response
  not_cached network_error : Outcome Response

module _ (p : Platform) (api : CacheApi p) where
  open p use {Request, is_get, Response, ok, body_used, cache_control, timestamp, stamped}
  open api use {Store, match, store, delete, keys}

  -- `calculateCacheControl`
  abbrev pub calculate_cache_control : Option Response → CacheControl → CacheControl → CacheControl
  calculate_cache_control none defaults overrides = spread (spread defaults no_directives) overrides
  calculate_cache_control (some cached) defaults overrides =
      spread (spread defaults (cache_control cached)) overrides

  -- `getCachedTimestamp`
  abbrev pub get_cached_timestamp : Option Response → Instant
  get_cached_timestamp none = unknown
  get_cached_timestamp (some cached) = timestamp cached

  -- `isCacheableRequestKey`
  abbrev pub is_cacheable_request_key : RequestInfo Request → Bool
  is_cacheable_request_key (url s) = true
  is_cacheable_request_key (request r) = is_get r

  -- `put`: a response whose body was read is refused, and nothing is stored.
  pub put : Store → RequestInfo Request → Response → ℤ → Store
  put s id response now = if body_used response then s else store s id (stamped now response)

  -- The cache id of a request.
  abbrev pub cache_id : Option String → RequestInfo Request → RequestInfo Request
  cache_id none r = r
  cache_id (some String.[]) r = r
  cache_id (some key) r = url (String.◌++◌ "https://cache/" key)

  -- The local function `responseIsValid` of `get`.
  abbrev pub is_valid_response : CacheEntryOptions Response → Response → Bool
  is_valid_response options response = ok response && options.response_is_valid response

  -- The object and the requests of one call of `get`, once all of its promises have settled.
  pub record Settled : Type 0 where
    pub outcome : Outcome Response
    pub after : Store
    pub fetched : Bool

  module _ (options : CacheEntryOptions Response) (now : ℤ) (id : RequestInfo Request) where
    -- The local function `fetchAndMaybeCache`, as far as it changes the cache. `network` is what
    -- the network answers: `none` is a failed request.
    pub maybe_cache : Store → Option Response → Store
    unfolding put
    maybe_cache s none = s
    maybe_cache s (some response) =
        let control =
          calculate_cache_control (some response) options.cache_control_defaults
            options.cache_control_overrides in
        if not (default control.no_store false)
          && (is_cacheable_request_key id && is_valid_response options response)
        then put s id response now
        else s

    -- The end of `get`, after the network was asked: `none` is a failed request.
    pub settle_network : Bool → Option Response → Option Response → Outcome Response
    settle_network allow_cache none none = network_error
    settle_network allow_cache (some cached) none =
        if allow_cache then served cached else network_error
    settle_network allow_cache cached (some response) =
        if is_valid_response options response
        then served response
        else served (default cached response)

    -- The branch of `get` that waits for the network.
    pub prefer_network : Store → Option Response → Option Response → Bool → Settled
    unfolding maybe_cache settle_network
    prefer_network s cached network allow_cache = record {
      outcome = settle_network allow_cache cached network;
      after = maybe_cache s network;
      fetched = true;
    }

    -- The part of `get` after the cache was read.
    pub answer : Store → Option Response → Option Response → CacheBehavior → Settled
    unfolding prefer_network
    answer s none network behavior =
        if behavior.allow_network
        then prefer_network s none network behavior.allow_cache
        else record { outcome = not_cached; after = s; fetched = false }
    answer s (some cached) network behavior =
        if behavior.prefer_cache
        then record {
          outcome = served cached;
          after = if behavior.reevaluate then maybe_cache s network else s;
          fetched = behavior.reevaluate;
        }
        else prefer_network s (some cached) network behavior.allow_cache

  -- The directives that `get` decides by, and what it makes of them.
  pub behavior_of : CacheEntryOptions Response → ℤ → Option Response → CacheBehavior
  unfolding calculate_cache_behavior
  behavior_of options now cached =
      calculate_cache_behavior
        (calculate_cache_control cached options.cache_control_defaults
          options.cache_control_overrides)
        (get_cached_timestamp cached) now

  -- `get`: the response or error, the cache afterwards, and whether the network was asked.
  unfoldable pub get :
      CacheEntryOptions Response → ℤ → Store → RequestInfo Request → Option Response → Settled
  unfolding answer behavior_of
  get options now s r network =
      let id = cache_id options.cache_key r in
      let forget = default options.cache_control_overrides.no_store false in
      let remaining = if forget then delete s id else s in
      let cached = if forget then none else match s id in
      answer options now id remaining cached network (behavior_of options now cached)

  -- `delete` and `has`
  pub delete_entry : Store → RequestInfo Request → Store × Bool
  delete_entry s id = (delete s id, is_some (match s id))

  pub has : Store → RequestInfo Request → Bool
  has s id = is_some (match s id)

  -- The directives of `clean`: entries with no stale-while-revalidate of their own stay for a time.
  abbrev pub clean_control : Option ℤ → Option Response → CacheControl
  clean_control purge_after_stale cached =
      calculate_cache_control cached
        (record no_directives {
          stale_while_revalidate = some (default purge_after_stale (pos 604800));
        })
        (record no_directives { no_store = some false })

  abbrev pub keeps_entry : Option ℤ → ℤ → Option Response → Bool
  keeps_entry purge_after_stale now cached =
      (calculate_cache_behavior (clean_control purge_after_stale cached)
        (get_cached_timestamp cached) now).prefer_cache

  -- The loop of `clean` over the keys that the cache had.
  pub clean_keys : Option ℤ → ℤ → List (RequestInfo Request) → Store → Store
  clean_keys purge_after_stale now [] s = s
  clean_keys purge_after_stale now (k ∷ ks) s =
      clean_keys purge_after_stale now ks
        (if keeps_entry purge_after_stale now (match s k) then s else delete s k)

  unfoldable pub clean : Option ℤ → ℤ → Store → Store
  unfolding clean_keys calculate_cache_behavior
  clean purge_after_stale now s = clean_keys purge_after_stale now (keys s) s
