-- ===== src/Transport/Limits.antt =====
-- How many requests the rate limiter lets through.
use golang_staterpack.Prelude.{
  ℕ, zero, suc, ◌+◌, ◌-◌, ℤ, pos, String, ◌≡◌, Option, none, some, ok, if◌then◌else◌, ltb, leb,
  arith,
}
use Prim.Native.String.{◌++◌}
use golang_staterpack.Model.{Duration}
use golang_staterpack.Libraries.Redis.{Redis}
use golang_staterpack.Transport.Defs.{rate_limiter, Response}

module _ {C : Type 0} (cache : Redis C) (count : C → ℕ) (k : String) (window : Duration) where
  -- The counter of the key `k` while its window lasts and Redis answers.
  abbrev pub CountsUp : Type 0
  CountsUp =
      (c : C)
      → ((cache.incr_expire k window c).0 ≡ ok (pos (suc (count c))))
        × (count (cache.incr_expire k window c).1 ≡ suc (count c))

abbrev pub passed : Option Response → ℕ
passed none = 1
passed (some r) = 0

-- The requests that pass, of n in a row from one address.
unfoldable pub admitted : {C : Type 0} → Redis C → ℤ → Duration → String → String → ℕ → C → ℕ
admitted cache limit window ip trace zero c = 0
admitted cache limit window ip trace (suc n) c =
    let (r, c') = rate_limiter cache limit window ip trace c in
    passed r.1 + admitted cache limit window ip trace n c'

module _ {C : Type 0} (cache : Redis C) (count : C → ℕ) (limit : ℕ) (window : Duration)
    (ip trace : String) (counts : CountsUp cache count ("ratelimit:" ++ ip) window) where
  passed-rate_limiter :
      (c : C)
      → (passed (rate_limiter cache (pos limit) window ip trace c).0.1
          ≡ (if ltb limit (suc (count c)) then 0 else 1))
        × (count (rate_limiter cache (pos limit) window ip trace c).1 ≡ suc (count c))
  unfolding rate_limiter
  passed-rate_limiter c = let (answer, after) = counts c in (ground arith, after)

  admitted_from :
      (n : ℕ) (c : C)
      → admitted cache (pos limit) window ip trace n c
        ≡ (if leb (count c + n) limit then n else limit - count c)
  unfolding admitted
  admitted_from zero c = ground arith
  admitted_from (suc n) c =
      let c' = (rate_limiter cache (pos limit) window ip trace c).1 in
      ground (arith, passed-rate_limiter c, admitted_from n c')

-- While one window lasts and Redis answers, the first `limit` requests of an address pass, and none
-- after them.
pub admitted_lem :
    {C : Type 0} (cache : Redis C) (count : C → ℕ) (limit : ℕ) (window : Duration)
    (ip trace : String)
    → CountsUp cache count ("ratelimit:" ++ ip) window
    → (n : ℕ) (c : C) → count c ≡ 0
    → admitted cache (pos limit) window ip trace n c ≡ (if leb n limit then n else limit)
admitted_lem cache count limit window ip trace counts n c start =
    ground (arith, admitted_from cache count limit window ip trace counts n c)
