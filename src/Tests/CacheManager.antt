-- ===== src/Tests/CacheManager.antt =====
-- Runs of the cache manager over a small cache, and each theorem at an input that meets its
-- hypotheses.
use vinyl.Common.{
  ℕ, ◌≡◌, ◌⊎◌, ◌↔◌, ◌∷◌, [], List, Bool, true, false, Option, none, some, refl, not, ◌&&◌,
  if◌then◌else◌,
}
use vinyl.Int.{pos, ◌+ℤ◌}
use vinyl.CacheManager.{
  Platform, CacheApi, CacheControl, CacheEntryOptions, Instant, unknown, at, RequestInfo, url,
  request, served, not_cached, network_error, no_directives, is_some, is_valid_response, any_same,
  get, clean,
}
use vinyl.CacheManager.Answer.{looked_up, IsStorable}
use vinyl.CacheManager.Get.{
  is_preferred, get-stores, get-no_store, get-serves, get-only_if_cached, get-offline,
}
use vinyl.CacheManager.Quiet.{IsLeftAlone, get-unasked}
use vinyl.CacheManager.Clean.{IsOfUse, clean-match}

-- A response is its status, its directives and the time at which it was stored.
record Reply : Type 0 where
  ok : Bool
  control : CacheControl
  stored : Instant

abbrev platform : Platform
platform = record {
  Request = Bool;
  is_get = λ r. r;
  Response = Reply;
  ok = λ r. r.ok;
  body_used = λ r. false;
  cache_control = λ r. r.control;
  timestamp = λ r. r.stored;
  stamped = λ now r. record r { stored = at now };
}

abbrev Slots : Type 0
Slots = Option Reply × Option Reply

-- A cache of two entries, one for URLs and one for `Request` objects.
abbrev slot : Slots → RequestInfo Bool → Option Reply
slot s (url u) = s.0
slot s (request r) = s.1

abbrev fill : Slots → RequestInfo Bool → Option Reply → Slots
fill s (url u) v = (v, s.1)
fill s (request r) v = (s.0, v)

abbrev same_slot : RequestInfo Bool → RequestInfo Bool → Bool
same_slot (url u) (url v) = true
same_slot (url u) (request r) = false
same_slot (request r) (url u) = false
same_slot (request r) (request q) = true

same_slot_refl : (k : RequestInfo Bool) → same_slot k k ≡ true
same_slot_refl (url u) = refl
same_slot_refl (request r) = refl

slot-same : (s : Slots) (k j : RequestInfo Bool) → same_slot k j ≡ true → slot s k ≡ slot s j
slot-same s (url u) (url v) h = refl
slot-same s (url u) (request r) h = cc
slot-same s (request r) (url u) h = cc
slot-same s (request r) (request q) h = refl

slot-fill :
    (s : Slots) (k j : RequestInfo Bool) (v : Option Reply)
    → slot (fill s k v) j ≡ (if same_slot k j then v else slot s j)
slot-fill s (url u) (url w) v = refl
slot-fill s (url u) (request r) v = refl
slot-fill s (request r) (url u) v = refl
slot-fill s (request r) (request q) v = refl

abbrev both_keys : List (RequestInfo Bool)
both_keys = url "a" ∷ request true ∷ []

both_keys-match :
    (s : Slots) (j : RequestInfo Bool) (r : Reply)
    → slot s j ≡ some r
    → any_same same_slot both_keys j ≡ true
both_keys-match s (url u) r h = refl
both_keys-match s (request q) r h = refl

abbrev slots : CacheApi platform
slots = record {
  Store = Slots;
  match = slot;
  store = λ s k r. fill s k (some r);
  delete = λ s k. fill s k none;
  keys = λ s. both_keys;
  same = same_slot;
  same_refl = same_slot_refl;
  match-same = slot-same;
  match-store = λ s k j r. slot-fill s k j (some r);
  match-delete = λ s k j. slot-fill s k j none;
  keys-match = both_keys-match;
}

-- Fresh for 10 seconds from the time at which it was stored.
abbrev reply : ℕ → Reply
reply t = record {
  ok = true;
  control = record no_directives { max_age = some (pos 10) };
  stored = at (pos t);
}

abbrev failed : Reply
failed = record { ok = false; control = no_directives; stored = unknown }

abbrev plain : CacheEntryOptions Reply
plain = record {
  cache_key = none;
  cache_control_defaults = no_directives;
  cache_control_overrides = no_directives;
  response_is_valid = λ r. true;
}

abbrev only_cached : CacheEntryOptions Reply
only_cached = record plain {
  cache_control_overrides = record no_directives { only_if_cached = some true };
}

abbrev forbidden : CacheEntryOptions Reply
forbidden = record plain { cache_control_overrides = record no_directives { no_store = some true } }

abbrev filled : Slots
filled = (some (reply 1000), none)

-- A fresh entry is served, and the network is left alone.
hit : (get platform slots plain (pos 5000) filled (url "a") none).outcome ≡ served (reply 1000)
unfolding get ◌+ℤ◌
hit = refl

-- A stale one is served if the network answers with an invalid response.
invalid_answer :
    (get platform slots plain (pos 50_000) filled (url "a") (some failed)).outcome
    ≡ served (reply 1000)
unfolding get ◌+ℤ◌
invalid_answer = refl

-- With only-if-cached a stale entry still sends a request.
stale_request : (get platform slots only_cached (pos 50_000) filled (url "a") none).fetched ≡ true
unfolding get ◌+ℤ◌
stale_request = refl

-- It is also served then, and stays in the cache, if its own header says no-store.
abbrev private_reply : Reply
private_reply = record (reply 1000) { control = record no_directives { no_store = some true } }

forbidden_answer :
    ((get platform slots plain
        (pos 5000)
        (some private_reply, none)
        (url "a")
        (some failed)).outcome
      ≡ served private_reply)
    × ((get platform slots plain
          (pos 5000)
          (some private_reply, none)
          (url "a")
          (some failed)).after
        ≡ (some private_reply, none))
unfolding get ◌+ℤ◌
forbidden_answer = (refl, refl)

-- An entry stays for its 10 seconds and seven days, and no longer.
cleaned_early : clean platform slots none (pos 604_810_999) filled ≡ filled
unfolding clean ◌+ℤ◌
cleaned_early = refl

cleaned_late : clean platform slots none (pos 604_811_000) filled ≡ (none, none)
unfolding clean ◌+ℤ◌
cleaned_late = refl

get-unasked_example :
    (((get platform slots plain (pos 5000) filled (url "a") none).fetched ≡ false)
      ↔ IsLeftAlone platform plain (reply 1000) (pos 5000))
    × ((get platform slots plain (pos 5000) filled (url "a") none).fetched ≡ false
        → ((get platform slots plain (pos 5000) filled (url "a") none).outcome
            ≡ served (reply 1000))
          × ((get platform slots plain (pos 5000) filled (url "a") none).after ≡ filled))
get-unasked_example =
    get-unasked platform slots plain (pos 5000) filled (url "a") none (reply 1000) refl

abbrev kept_reply : Reply
kept_reply = record (reply 5000) { stored = at (pos 50_000) }

get-stores_example :
    (slot (none, none) (url "a") ≡ some kept_reply)
    ⊎ ((response : Reply) × (some (reply 5000) ≡ some response)
        × IsStorable platform slots plain (pos 50_000) (url "a") response
        × (kept_reply ≡ record response { stored = at (pos 50_000) }))
unfolding get
get-stores_example =
    get-stores platform slots plain (pos 50_000) (none, none) (url "a") (some (reply 5000))
      kept_reply refl

get-no_store_example :
    slot
      (get platform slots forbidden (pos 5000) filled (url "a") (some (reply 5000))).after
      (url "a")
    ≡ none
get-no_store_example =
    get-no_store platform slots forbidden (pos 5000) filled (url "a") (some (reply 5000)) refl

get-serves_example :
    (slot filled (url "a") ≡ some (reply 1000))
    ⊎ ((some failed ≡ some (reply 1000))
        × ((is_valid_response platform slots plain (reply 1000) ≡ true)
            ⊎ (looked_up platform slots plain (pos 50_000) filled (url "a") ≡ none))
        × ((get platform slots plain (pos 50_000) filled (url "a") (some failed)).fetched ≡ true))
unfolding get ◌+ℤ◌
get-serves_example =
    get-serves platform slots plain (pos 50_000) filled (url "a") (some failed) (reply 1000) refl

get-only_if_cached_example :
    ((get platform slots only_cached (pos 50_000) filled (url "a") none).fetched ≡ (
      is_some (some (reply 1000))
      && not (is_preferred platform slots only_cached (pos 50_000) filled (url "a") none)))
    × (◌≡◌ {A = Option Reply} (some (reply 1000)) none
        → (get platform slots only_cached (pos 50_000) filled (url "a") none).outcome ≡ not_cached)
get-only_if_cached_example =
    get-only_if_cached platform slots only_cached (pos 50_000) filled (url "a") none refl

get-offline_example :
    (get platform slots plain (pos 50_000) filled (url "a") none).outcome
    ≡ (if false then network_error else served (reply 1000))
get-offline_example =
    get-offline platform slots plain (pos 50_000) filled (url "a") none (reply 1000) refl refl

clean-match_example :
    (slot (clean platform slots none (pos 604_810_999) filled) (url "a") ≡ some (reply 1000)) ↔ (
      (slot filled (url "a") ≡ some (reply 1000))
      × IsOfUse platform slots none (pos 604_810_999) (reply 1000))
clean-match_example =
    clean-match platform slots none (pos 604_810_999) filled (url "a") (reply 1000)
