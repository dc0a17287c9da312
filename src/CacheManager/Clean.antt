-- ===== src/CacheManager/Clean.antt =====
-- What `clean` removes.
use vinyl.Common.{
  ◌≡◌, refl, Bool, true, false, Option, none, some, List, [], ◌∷◌, inl, inr, ◌∙◌, sym, Bool-cases,
  if◌then◌else◌, ◌⊎◌, ◌↔◌, ◌*◌,
}
use vinyl.Int.{ℤ, pos}
use vinyl.CacheManager.Behavior.{IsWithin, prefer_cache_iff}
use vinyl.CacheManager.{
  Platform, CacheApi, RequestInfo, any_same, or_else, default, clean_control, keeps_entry,
  clean_keys, clean,
}

module _ (p : Platform) (api : CacheApi p) (purge : Option ℤ) (now : ℤ) where
  open p use {Request, Response, cache_control, timestamp}
  open api use {Store, match, delete, keys, same, match-same, match-delete, keys-match}

  abbrev kept : Option Response → Bool
  kept cached = keeps_entry p api purge now cached

  -- What is left for a request after the keys were gone through.
  abbrev left : List (RequestInfo Request) → RequestInfo Request → Option Response → Option Response
  left ks j cached = if any_same same ks j then (if kept cached then cached else none) else cached

  if_same : (b : Bool) (m : Option Response) → (if b then m else m) ≡ m
  if_same true m = refl
  if_same false m = refl

  left-none : (ks : List (RequestInfo Request)) (j : RequestInfo Request) → left ks j none ≡ none
  left-none ks j = elim (Bool-cases (any_same same ks j)) [
    | inl e ↦ rw e (if_same (kept none) none)
    | inr e ↦ rw e refl
  ]

  left-keys :
      (s : Store) (j : RequestInfo Request) (m : Option Response)
      → match s j ≡ m
      → left (keys s) j m ≡ (if kept m then m else none)
  left-keys s j none e = left-none (keys s) j ∙ sym (if_same (kept none) none)
  left-keys s j (some r) e = rw (keys-match s j r e)

  clean_keys-match :
      (ks : List (RequestInfo Request)) (s : Store) (j : RequestInfo Request)
      → match (clean_keys p api purge now ks s) j ≡ left ks j (match s j)
  unfolding clean_keys
  clean_keys-match [] s j = refl
  clean_keys-match (k ∷ ks) s j = elim (Bool-cases (kept (match s k))) [
    | inl keep ↦ elim (Bool-cases (same k j)) [
      | inl e ↦
          let keep_j : kept (match s j) ≡ true = rw (← match-same s k j e) keep in
          rw (keep, clean_keys-match ks s j, e, keep_j) (if_same (any_same same ks j) (match s j))
      | inr e ↦ rw (keep, clean_keys-match ks s j, e) refl
    ]
    | inr drop ↦ elim (Bool-cases (same k j)) [
      | inl e ↦
          let drop_j : kept (match s j) ≡ false = rw (← match-same s k j e) drop in
          rw (drop, clean_keys-match ks (delete s k) j, match-delete s k j, e, drop_j)
            (left-none ks j)
      | inr e ↦ rw (drop, clean_keys-match ks (delete s k) j, match-delete s k j, e) refl
    ]
  ]

  -- The conditions on a response to stay in the cache, by its own time and directives: it is
  -- immutable, or within its age, or within its stale-while-revalidate time after that. A response
  -- without that directive has the time the caller gave, or else seven days.
  abbrev pub IsOfUse : Response → Type 0
  IsOfUse r =
      (default (cache_control r).immutable false ≡ true)
      ⊎ IsWithin now (timestamp r) (default (cache_control r).max_age (pos 0)) (pos 0)
      ⊎ IsWithin now (timestamp r) (default (cache_control r).max_age (pos 0)) (
          default (cache_control r).stale_while_revalidate (default purge (pos (7 * 24 * 60 * 60))))

  none-ne-some : (x : Response) → ◌≡◌ {A = Option Response} none (some x) → ⊥
  none-ne-some x e = cc

  or_else-default {ℓ} :
      {A : Type ℓ} (a : Option A) (d e : A) → default (or_else a (some d)) e ≡ default a d
  or_else-default none d e = refl
  or_else-default (some a) d e = refl

  or_else-none {ℓ} : {A : Type ℓ} (a : Option A) → or_else a none ≡ a
  or_else-none none = refl
  or_else-none (some a) = refl

  kept-IsOfUse : (r : Response) → (kept (some r) ≡ true) ↔ IsOfUse r
  kept-IsOfUse r =
      let c = cache_control r in
      let swr = or_else-default c.stale_while_revalidate (default purge (pos 604800)) (pos 0) in
      let age = or_else-none c.max_age in
      let fixed = or_else-none c.immutable in
      let (prefer, preferred) =
        prefer_cache_iff (clean_control p api purge (some r)) (timestamp r) now in
      (
        λ h. elim (rw (swr, age, fixed) at (prefer h).1) [
          | inl (inl f) ↦ inr (inl f)
          | inl (inr u) ↦ inr (inr u)
          | inr i ↦ inl i
        ],
        λ h. preferred (
          refl,
          rw (swr, age, fixed)
              (elim h [ inl i ↦ inr i | inr (inl f) ↦ inl (inl f) | inr (inr u) ↦ inl (inr u) ]),
        ),
      )

  kept-some :
      (m : Option Response) (r : Response)
      → ((if kept m then m else none) ≡ some r) ↔ ((m ≡ some r) × IsOfUse r)
  kept-some none r = (
    λ h. let no : ⊥ = none-ne-some r (sym (if_same (kept none) none) ∙ h) in elim no [ ],
    λ (e, _). let no : ⊥ = none-ne-some r e in elim no [ ],
  )
  kept-some (some c) r = elim (Bool-cases (kept (some c))) [
    | inl t ↦
        let (useful, _) = kept-IsOfUse c in
        (
          λ h.
              let e : ◌≡◌ {A = Option Response} (some c) (some r) = rw t at h in
              let same_entry : c ≡ r = cc in (e, rw same_entry at (useful t)),
          λ (e, _). rw t e,
        )
    | inr t ↦
        let (_, keep) = kept-IsOfUse c in
        (
          λ h. let no : ⊥ = none-ne-some r (rw t at h) in elim no [ ],
          λ (e, u).
              let same_entry : c ≡ r = cc in
              let on : kept (some c) ≡ true = keep (rw (← same_entry) at u) in
              let no : ⊥ = cc in elim no [ ],
        )
  ]

  -- A response is found under a request after `clean` exactly if it was found there before and is
  -- of use: immutable, or less than its age old, or less than its stale-while-revalidate time past
  -- its age, all in seconds from the time at which it was stored, where a response without that
  -- directive has the purge time of the options, or seven days. No-store and the other directives
  -- of the response do not matter.
  pub clean-match :
      (s : Store) (j : RequestInfo Request) (r : Response)
      → (match (clean p api purge now s) j ≡ some r) ↔ ((match s j ≡ some r) × IsOfUse r)
  unfolding clean
  clean-match s j r =
      rw (clean_keys-match (keys s) s j ∙ left-keys s j (match s j) refl) (kept-some (match s j) r)
