-- ===== src/Dedupe.antt =====
-- dedupe/manager.go: the marks that keep a message from being handled twice. The world `W` is what
-- the calls change outside the process; go-redis is a parameter.
pub mod Marks
use go_infra.Prelude.{ℕ, Bool, true, false, Option, none, some, ◌∷◌, [], if◌then◌else◌, ltb}
use go_infra.Prelude.Text.{Text, codes, is_empty}
use go_infra.Prelude.Int.{ℤ, pos, leb_ℤ}

-- The `Op` of a `DedupeError`.
pub data Op : Type 0 where
  try_mark marked clear : Op

-- A Go `error` that is not nil: the two of the package, one of another package, and `DedupeError`
-- with its `Cause`. Nothing in the package sets `Msg`.
pub data Error : Type 0 where
  key_required ttl_required : Error
  external : Text → Error
  dedupe_error : Op → Text → Error → Error

pub data Result {ℓ} (A : Type ℓ) : Type ℓ where
  ok : A → Result A
  err : Error → Result A

pub record Backend (W : Type 0) : Type 0 where
  pub try_mark : Text → ℤ → W → W × Result Bool
  pub marked : Text → W → W × Result Bool
  pub clear : Text → W → W × Option Error

-- What the package uses of go-redis: `SetNX`, `Exists` and `Del`.
pub record RedisClient (W : Type 0) : Type 0 where
  pub set_nx : Text → Text → ℤ → W → W × Result Bool
  pub exists_keys : Text → W → W × Result ℕ
  pub del : Text → W → W × Option Error

-- `result > 0, nil`
abbrev pub positive : Result ℕ → Result Bool
positive (err e) = err e
positive (ok n) = ok (ltb 0 n)

module _ {W : Type 0} (c : RedisClient W) where
  unfoldable pub redis_try_mark : Text → ℤ → W → W × Result Bool
  redis_try_mark key ttl w = c.set_nx key (codes "1") ttl w

  unfoldable pub redis_marked : Text → W → W × Result Bool
  redis_marked key w = let (w', count) = c.exists_keys key w in (w', positive count)

  unfoldable pub redis_clear : Text → W → W × Option Error
  redis_clear key w = c.del key w

  unfoldable pub redis_backend : Backend W
  unfolding redis_try_mark redis_marked redis_clear
  redis_backend = record { try_mark = redis_try_mark; marked = redis_marked; clear = redis_clear }

abbrev pub wrap {ℓ} : {A : Type ℓ} → Op → Text → Result A → Result A
wrap op key (err e) = err (dedupe_error op key e)
wrap op key (ok a) = ok a

abbrev pub wrap_error : Op → Text → Option Error → Option Error
wrap_error op key none = none
wrap_error op key (some e) = some (dedupe_error op key e)

module _ {W : Type 0} (b : Backend W) where
  unfoldable pub manager_try_mark : Text → ℤ → W → W × Result Bool
  manager_try_mark key ttl w =
      let (w', answer) = b.try_mark key ttl w in
      if is_empty key
      then (w, err (dedupe_error Op.try_mark key key_required))
      else if leb_ℤ ttl (pos 0)
      then (w, err (dedupe_error Op.try_mark key ttl_required))
      else (w', wrap Op.try_mark key answer)

  unfoldable pub manager_marked : Text → W → W × Result Bool
  manager_marked key w =
      let (w', answer) = b.marked key w in
      if is_empty key
      then (w, err (dedupe_error Op.marked key key_required))
      else (w', wrap Op.marked key answer)

  unfoldable pub manager_clear : Text → W → W × Option Error
  manager_clear key w =
      let (w', answer) = b.clear key w in
      if is_empty key
      then (w, some (dedupe_error Op.clear key key_required))
      else (w', wrap_error Op.clear key answer)
