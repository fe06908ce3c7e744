-- ===== src/Tests/LockQueue.antt =====
-- The local queue of redislock/manager.go at concrete histories.
use go_infra.Prelude.{[], ◌∷◌, ◌≡◌, refl, if◌then◌else◌}
use go_infra.Prelude.Text.{Text, codes, text_eq}
use go_infra.Prelude.Dict.{lookup, insert}
use go_infra.Redislock.Queue.{
  LocalKeyQueue, new_local_key_queue, try_acquire, acquire_begin, release,
}
use go_infra.Redislock.Queue.Laws.{
  free, busy, view, IsTidy, new-IsTidy, try_acquire-IsTidy, acquire_begin-IsTidy, release-view,
  spec_release,
}
use go_infra.Redislock.Queue.Fifo.{arrive, releases, arrive-releases}

abbrev job : Text
job = codes "job"

-- One goroutine holds the key, and another waits.
abbrev held : LocalKeyQueue
held = (try_acquire job new_local_key_queue).0

abbrev contended : LocalKeyQueue
contended = (acquire_begin job 7 held).0

held-IsTidy : IsTidy held
held-IsTidy = try_acquire-IsTidy job new_local_key_queue new-IsTidy

contended-IsTidy : IsTidy contended
contended-IsTidy = acquire_begin-IsTidy job held held-IsTidy 7

contended-view : view job contended ≡ busy (7 ∷ [])
unfolding view acquire_begin try_acquire new_local_key_queue lookup insert text_eq
contended-view = refl

release-view_example :
    (view job (release job contended).0
      ≡ (if text_eq job job then (spec_release (view job contended)).0 else view job contended))
    × ((release job contended).1 ≡ (spec_release (view job contended)).1)
release-view_example = release-view job job contended contended-IsTidy

new_view : view job new_local_key_queue ≡ free
unfolding view new_local_key_queue lookup
new_view = refl

arrive-releases_example :
    let r = releases 3 job (arrive job (1 ∷ 2 ∷ 3 ∷ []) new_local_key_queue) in
    (view job r.0 ≡ free) × (r.1 ≡ 2 ∷ 3 ∷ [])
arrive-releases_example = arrive-releases job 1 (2 ∷ 3 ∷ []) new_local_key_queue new-IsTidy new_view
