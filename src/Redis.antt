-- ===== src/Redis.antt =====
-- What the services rely on of a Redis server: the documented behaviour of the commands that the
-- code sends, as operations with laws. Commands that fail on the network are not among them.
use Prim.Native.String.{String}
use text.Mathlib.Text.{◌==◌ as str_eq}
use omni_aegis.Prelude.{
  ℕ, ◌+◌, ◌≡◌, Bool, true, false, List, Option, none, some, if◌then◌else◌, ltb, All,
}

abbrev pub is_some {ℓ} : {A : Type ℓ} → Option A → Bool
is_some none = false
is_some (some a) = true

-- Sorted sets: ZSCORE, ZADD, ZREM, ZRANGE 0 -1, ZREVRANGE 0 n-1, and
-- ZRANGEBYSCORE for the range that a test describes.
pub record SortedSets (Score : Type 0) : Type 1 where
  pub Members : Type 0
  pub zscore : String → Members → Option Score
  pub zadd : String → Score → Members → Members
  pub zrem : String → Members → Members
  pub zrange : Members → List String
  pub zrevrange : ℕ → Members → List String
  pub zrangebyscore : (Score → Bool) → Members → List String
  pub zscore-zadd :
      (m n : String) (v : Score) (s : Members)
      → zscore n (zadd m v s) ≡ (if str_eq m n then some v else zscore n s)
  pub zscore-zrem :
      (m n : String) (s : Members) → zscore n (zrem m s) ≡ (if str_eq m n then none else zscore n s)
  pub zrange-members : (s : Members) → All (λ m. is_some (zscore m s) ≡ true) (zrange s)
  pub zrevrange-members :
      (k : ℕ) (s : Members) → All (λ m. is_some (zscore m s) ≡ true) (zrevrange k s)
  pub zrangebyscore-members :
      (test : Score → Bool) (s : Members)
      → All (λ m. is_some (zscore m s) ≡ true) (zrangebyscore test s)

-- Keys with an expiry: SET key value PX ttl, and EXISTS, at the server's clock.
pub record ExpiringKeys (Value : Type 0) : Type 1 where
  pub Keys : Type 0
  pub set_px : String → Value → ℕ → ℕ → Keys → Keys
  pub exists : String → ℕ → Keys → Bool
  pub exists-set_px :
      (k j : String) (v : Value) (ttl now now' : ℕ) (s : Keys)
      → exists j now' (set_px k v ttl now s)
        ≡ (if str_eq k j then ltb now' (now + ttl) else exists j now' s)
