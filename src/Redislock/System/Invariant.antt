-- ===== src/Redislock/System/Invariant.antt =====
-- Who waits and who owns, in every state that the steps of Redislock.System reach.
pub mod Moves
pub mod Owners
use go_infra.Prelude.{ℕ, Bool, true, false, ◌≡◌, ◌⊎◌, refl, arith}
use go_infra.Prelude.Text.{Text}
use go_infra.Redislock.Queue.{new_local_key_queue}
use go_infra.Redislock.Queue.Laws.{View, view, IsTidy, new-IsTidy}
use go_infra.Redislock.System.{Pc, idle, selecting, closing, System, init}
use go_infra.Redislock.System.Steps.{views}
use go_infra.Redislock.System.Slots.{is_in, waiters_of, is_free, IsSimple, owns, is_at, is_idle}

pub record Inv (v : Text → View) (closed : ℕ → Bool) (pc : ℕ → Pc) : Type 0 where
  -- what waits is a call in `acquire`, once, whose channel nobody has closed or is about to close
  pub queued : (k : Text) (i : ℕ) → is_in i (waiters_of (v k)) ≡ true → is_at k (pc i) ≡ true
  pub simple : (k : Text) → IsSimple (waiters_of (v k))
  pub unclosed : (k : Text) (i : ℕ) → closed i ≡ true → is_in i (waiters_of (v k)) ≡ false
  pub unclosing : (k : Text) (i j : ℕ) → pc j ≡ closing i → is_in i (waiters_of (v k)) ≡ false
  pub begun_closed : (i : ℕ) → closed i ≡ true → is_idle (pc i) ≡ false
  pub begun_closing : (i j : ℕ) → pc j ≡ closing i → is_idle (pc i) ≡ false
  -- a key has at most one owner, and a free key none
  pub unique :
      (k : Text) (i j : ℕ)
      → owns k (waiters_of (v k)) i (pc i) ≡ true
      → owns k (waiters_of (v k)) j (pc j) ≡ true
      → i ≡ j
  pub unowned :
      (k : Text) (i : ℕ) → is_free (v k) ≡ true → owns k (waiters_of (v k)) i (pc i) ≡ false
  -- a call that was handed its key finds its channel closed, now or soon
  pub handed :
      (k : Text) (i : ℕ)
      → pc i ≡ selecting k
      → is_in i (waiters_of (v k)) ≡ false
      → (closed i ≡ true) ⊎ ((j : ℕ) × (pc j ≡ closing i))

abbrev pub SystemInv : System → Type 0
SystemInv s = IsTidy s.queue × Inv (views s.queue) s.closed s.pc
