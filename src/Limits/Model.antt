-- ===== src/Limits/Model.antt =====
-- `RedisRateLimiter.check` of core/rate_limits.py with its Lua script. Redis is a parameter.
use ai_powered_codebase_engi.Prelude.{
  ℕ, ◌+◌, ◌≡◌, ◌≢◌, ◌<◌, String, Bool, List, [], ◌∷◌, ltb, leb, ◌==◌, any, if◌then◌else◌,
}
use ai_powered_codebase_engi.Prelude.Result.{Result, ok, err, app_error}

pub record Limit : Type 0 where
  pub key : String
  pub count : ℕ
  pub seconds : ℕ

-- The commands that the script calls: GET with '0' for a missing key, INCR and EXPIRE.
pub record Redis (R : Type 0) : Type 0 where
  pub get : String → R → ℕ
  pub incr : String → R → R
  pub expire : String → ℕ → R → R

-- What Redis documents of them: INCR adds one to its key alone, and a positive time to live
-- changes no value (until it has passed; one that is not positive deletes the key).
pub record IsRedis {R : Type 0} (redis : Redis R) : Type 0 where
  pub get_incr : (k : String) (r : R) → redis.get k (redis.incr k r) ≡ redis.get k r + 1
  pub get_incr_ne : (k l : String) (r : R) → k ≢ l → redis.get l (redis.incr k r) ≡ redis.get l r
  pub get_expire :
      (k l : String) (n : ℕ) (r : R) → 0 < n → redis.get l (redis.expire k n r) ≡ redis.get l r

module _ {R : Type 0} (redis : Redis R) where
  -- the first loop of the script
  unfoldable pub is_full : R → Limit → Bool
  is_full r limit = leb limit.count (redis.get limit.key r)

  -- one round of the second loop
  unfoldable pub take_one : Limit → R → R
  take_one limit r =
      let counted = redis.incr limit.key r in
      if redis.get limit.key counted == 1
      then redis.expire limit.key limit.seconds counted
      else counted

  unfoldable pub take_all_of : List Limit → R → R
  unfolding take_one
  take_all_of [] r = r
  take_all_of (limit ∷ limits) r = take_all_of limits (take_one limit r)

  -- `SCRIPT`: its result and the store
  unfoldable pub script : List Limit → R → ℕ × R
  unfolding is_full take_all_of
  script limits r = if any (is_full r) limits then (0, r) else (1, take_all_of limits r)

  unfoldable pub refusal : List Limit → String
  refusal limits =
      if any (λ (limit : Limit). ltb 60 limit.seconds) limits
      then "import_rate_limited"
      else "rate_limited"

  unfoldable pub answer : List Limit → ℕ × R → Result (Unit {0}) × R
  unfolding refusal
  answer limits (result, r) =
      if result == 1 then (ok tt, r) else (err (app_error (refusal limits) 429), r)

  -- `check`, where Redis answers
  unfoldable pub check : List Limit → R → Result (Unit {0}) × R
  unfolding script answer
  check limits r = answer limits (script limits r)
