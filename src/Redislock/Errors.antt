-- ===== src/Redislock/Errors.antt =====
-- The errors of redislock/manager.go.
use go_infra.Prelude.{Bool, true, false, ◌++◌}
use go_infra.Prelude.Text.{Text, codes}

-- The `Op` of a `LockError`.
pub data Op : Type 0 where
  try_lock acquire with_lock release refresh : Op

-- The messages that the package puts into `Msg`.
pub data Message : Type 0 where
  key_required ttl_required callback_required : Message

-- A Go `error` that is not nil. `LockError` is two constructors: with a `Cause`, and with a `Msg`.
pub data Error : Type 0 where
  lock_not_acquired lock_not_held lock_released : Error
  external : Text → Error
  lock_error : Op → Text → Error → Error
  lock_message : Op → Text → Message → Error

-- `errors.Is(err, ErrLockNotHeld)`, which follows `LockError.Unwrap`.
unfoldable pub is_lock_not_held : Error → Bool
is_lock_not_held lock_not_held = true
is_lock_not_held (lock_error op key cause) = is_lock_not_held cause
is_lock_not_held _ = false

op_text : Op → Text
op_text try_lock = codes "tryLock"
op_text acquire = codes "acquire"
op_text with_lock = codes "withLock"
op_text release = codes "release"
op_text refresh = codes "refresh"

message_text : Message → Text
message_text key_required = codes "redis lock key is required"
message_text ttl_required = codes "redis lock ttl must be greater than zero"
message_text callback_required = codes "redis lock callback is required"

-- `LockError.Error` and the texts of the sentinel errors; `quote` is the `%q` of package fmt.
unfoldable pub error_text : (Text → Text) → Error → Text
unfolding op_text message_text
error_text quote lock_not_acquired = codes "redis lock not acquired"
error_text quote lock_not_held = codes "redis lock not held"
error_text quote lock_released = codes "redis lock already released"
error_text quote (external text) = text
error_text quote (lock_message op key msg) = message_text msg
error_text quote (lock_error op key cause) =
    codes "redis lock "
    ++ (op_text op
        ++ (codes " failed for key " ++ (quote key ++ (codes ": " ++ error_text quote cause))))

-- A Go pair of a value and an error, of which one is meant.
pub data Result {ℓ} (A : Type ℓ) : Type ℓ where
  ok : A → Result A
  err : Error → Result A
