-- ===== src/Redislock/Manager/Local.antt =====
-- The local key in the methods of `Manager` (redislock/manager.go): taken where it was free, and
-- given back with no trace.
use go_infra.Prelude.{true, false, none, [], ◌≡◌, arith, if◌then◌else◌}
use go_infra.Prelude.Text.{Text, text_eq, text_eq_iff, text_eq_refl}
use go_infra.Redislock.Queue
use go_infra.Redislock.Queue.{LocalKeyQueue, Turn, taken, waiting}
use go_infra.Redislock.Queue.Laws.{
  free, busy, view, IsTidy, try_acquire-view, try_acquire-IsTidy, release-view,
}

-- `q'` is `q` after a goroutine took the free key.
pub record Took (key : Text) (q q' : LocalKeyQueue) : Type 0 where
  pub tidy : IsTidy q'
  pub was_free : view key q ≡ free
  pub views : (j : Text) → view j q' ≡ (if text_eq key j then busy [] else view j q)

-- The queues show the same at every key.
abbrev pub Same : LocalKeyQueue → LocalKeyQueue → Type 0
Same q q' = (j : Text) → view j q' ≡ view j q

pub Took-view : {key : Text} {q q' : LocalKeyQueue} → Took key q q' → view key q' ≡ busy []
Took-view {key} {q} {q'} t = ground (arith, t.views key, text_eq_refl key)

pub Took-release :
    (key : Text) (q q' : LocalKeyQueue)
    → Took key q q'
    → Same q (Queue.release key q').0 × ((Queue.release key q').1 ≡ none)
Took-release key q q' t = (
  λ j.
      ground (
        arith,
        release-view key j q' t.tidy,
        t.views j,
        Took-view t,
        text_eq_iff key j,
        t.was_free,
      ),
  ground (arith, release-view key key q' t.tidy, Took-view t),
)

pub try_acquire-Took :
    (key : Text) (q : LocalKeyQueue)
    → IsTidy q
    → (Queue.try_acquire key q).1 ≡ true
    → Took key q (Queue.try_acquire key q).0
try_acquire-Took key q t got =
    let was : view key q ≡ free = ground (arith, try_acquire-view key key q t, got) in
    record {
      tidy = try_acquire-IsTidy key q t;
      was_free = was;
      views = λ j. ground (arith, try_acquire-view key j q t, was);
    }

pub try_acquire-Same :
    (key : Text) (q : LocalKeyQueue)
    → IsTidy q
    → (Queue.try_acquire key q).1 ≡ false
    → Same q (Queue.try_acquire key q).0
try_acquire-Same key q t got j = ground (arith, try_acquire-view key j q t, got, text_eq_iff key j)
