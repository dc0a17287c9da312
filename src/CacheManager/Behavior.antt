-- ===== src/CacheManager/Behavior.antt =====
-- What `calculateCacheBehavior` decides, by the times of the entry.
use vinyl.Common.{ℕ, ◌+◌, ◌*◌, ◌<◌, ◌≡◌, true, false, ◌⊎◌, ◌↔◌, arith}
use vinyl.Int.{ℤ, pos, pos_part, neg_part, sub_ℕ, ◌+ℤ◌, scale}
use vinyl.CacheManager.{
  CacheControl, Instant, unknown, at, plus, is_after, stale_at, default, calculate_cache_behavior,
}

-- `now`, in milliseconds, comes less than `age` and `extra` seconds after the time `t`. An unknown
-- time is too long ago for any number of seconds.
abbrev pub IsWithin : ℤ → Instant → ℤ → ℤ → Type 0
IsWithin now unknown age extra = ⊥
IsWithin now (at t) age extra =
    pos_part now + neg_part t + 1000 * neg_part age + 1000 * neg_part extra
    < pos_part t + 1000 * pos_part age + 1000 * pos_part extra + neg_part now

sub_ℕ-parts : (a b : ℕ) → pos_part (sub_ℕ a b) + b ≡ neg_part (sub_ℕ a b) + a
sub_ℕ-parts a b = ground arith

add-parts :
    (a b : ℤ)
    → pos_part (a +ℤ b) + (neg_part a + neg_part b) ≡ neg_part (a +ℤ b) + (pos_part a + pos_part b)
unfolding ◌+ℤ◌
add-parts a b = sub_ℕ-parts (pos_part a + pos_part b) (neg_part a + neg_part b)

scale-parts :
    (k : ℕ) (a : ℤ) → pos_part (scale k a) + k * neg_part a ≡ neg_part (scale k a) + k * pos_part a
scale-parts k a = sub_ℕ-parts (k * pos_part a) (k * neg_part a)

is_after-add :
    (t d now : ℤ)
    → (is_after (at (t +ℤ d)) now ≡ true)
      ↔ (pos_part now + neg_part t + neg_part d < pos_part t + pos_part d + neg_part now)
is_after-add t d now = let e = add-parts t d in (λ h. ground arith, λ h. ground arith)

abbrev max_age_of : CacheControl → ℤ
max_age_of c = default c.max_age (pos 0)

-- The entry is not past its age.
fresh_iff :
    (c : CacheControl) (t : Instant) (now : ℤ)
    → (is_after (stale_at c t) now ≡ true) ↔ IsWithin now t (max_age_of c) (pos 0)
fresh_iff c unknown now = (λ h. cc, λ h. absurd h)
fresh_iff c (at t) now =
    let e = scale-parts 1000 (max_age_of c) in
    let (later, sooner) = is_after-add t (scale 1000 (max_age_of c)) now in
    (λ h. omega (arith, later h), λ h. sooner (omega arith))

-- The entry is not past the stale-while-revalidate time after its age.
usable_iff :
    (c : CacheControl) (t : Instant) (w now : ℤ)
    → (is_after (plus (stale_at c t) (scale 1000 w)) now ≡ true) ↔ IsWithin now t (max_age_of c) w
usable_iff c unknown w now = (λ h. cc, λ h. absurd h)
usable_iff c (at t) w now =
    let age = scale 1000 (max_age_of c) in
    let e = scale-parts 1000 (max_age_of c) in
    let e' = scale-parts 1000 w in
    let sum = add-parts t age in
    let (later, sooner) = is_after-add (t +ℤ age) (scale 1000 w) now in
    (λ h. omega (arith, later h), λ h. sooner (omega arith))

-- A time at which an entry with these directives may be served without waiting for the network:
-- within its age, or within its stale-while-revalidate time after it (which counts only forwards).
abbrev pub IsUsable : CacheControl → Instant → ℤ → Type 0
IsUsable c t now =
    IsWithin now t (default c.max_age (pos 0)) (pos 0)
    ⊎ IsWithin now t (default c.max_age (pos 0)) (default c.stale_while_revalidate (pos 0))

pub prefer_cache_iff :
    (c : CacheControl) (t : Instant) (now : ℤ)
    → ((calculate_cache_behavior c t now).prefer_cache ≡ true) ↔ (
        (default c.no_store false ≡ false)
        × (IsUsable c t now ⊎ (default c.immutable false ≡ true)))
unfolding calculate_cache_behavior
prefer_cache_iff c t now =
    let (fresh, old) = fresh_iff c t now in
    let (usable, late) = usable_iff c t (default c.stale_while_revalidate (pos 0)) now in
    (λ h. ground arith, λ h. ground arith)

pub reevaluate_iff :
    (c : CacheControl) (t : Instant) (now : ℤ)
    → ((calculate_cache_behavior c t now).reevaluate ≡ false) ↔ (
        (default c.only_if_cached false ≡ true)
        ⊎ (default c.immutable false ≡ true)
        ⊎ ((default c.must_revalidate false ≡ false)
            × IsWithin now t (default c.max_age (pos 0)) (pos 0)))
unfolding calculate_cache_behavior
reevaluate_iff c t now =
    let (fresh, old) = fresh_iff c t now in (λ h. ground arith, λ h. ground arith)
