-- ===== src/Tests/LockBackend.antt =====
-- `RedisBackend` of redislock/manager.go over a small store, which shows that the laws can hold.
use go_infra.Prelude.{
  ℕ, zero, suc, ◌<◌, Bool, true, false, Option, none, some, List, [], ◌∷◌, ◌≡◌, ◌≢◌, refl, arith,
  if◌then◌else◌,
}
use go_infra.Prelude.Text.{Text, codes, text_eq, text_eq_iff}
use go_infra.Prelude.Int.{ℤ, pos, negsuc, leb_ℤ}
use go_infra.Prelude.Dict.{Dict, lookup, insert, delete, lookup-insert, lookup-delete}
use go_infra.Redislock.Errors.{Result, ok}
use go_infra.Redislock.Backend.{RedisClient, redis_refresh, refresh_script, milliseconds}
use go_infra.Redislock.Backend.Ownership.{
  IsRedis, Owns, IsReliable, Command, acquires, releases, execute_all, execute_all-Owns,
  redis_refresh_short,
}

-- The keys of a server with their tokens; nothing expires while the examples run.
abbrev pub Store : Type 0
Store = Dict Text

abbrev count : Option Text → ℕ
count none = 0
count (some a) = 1

abbrev set_nx : Option Text → Text → Text → Store → Store × Result Bool
set_nx none k v w = (insert k v w, ok true)
set_nx (some old) k v w = (w, ok false)

abbrev expire : ℤ → Text → Store → Store
expire (pos zero) k w = delete k w
expire (pos (suc n)) k w = w
expire (negsuc n) k w = delete k w

abbrev pub small : RedisClient Store
small = record {
  set_nx = λ k v ttl w. set_nx (lookup k w) k v w;
  get = lookup;
  del = λ k w. (delete k w, count (lookup k w));
  pexpire = λ k ms w. (expire ms k w, count (lookup k w));
  run = λ script w. ((script w).0, ok (script w).1);
}

small_kept :
    (o : Option Text) (k v : Text) (w : Store)
    → lookup k w ≡ o
    → (set_nx o k v w).1 ≡ ok false
    → (lookup k w ≢ none) × ((j : Text) → lookup j (set_nx o k v w).0 ≡ lookup j w)
small_kept none k v w p e = cc
small_kept (some x) k v w p e = (λ q. cc, λ j. refl)

small_set :
    (o : Option Text) (k v : Text) (w : Store)
    → lookup k w ≡ o
    → (set_nx o k v w).1 ≡ ok true
    → (lookup k w ≡ none)
      × ((j : Text) → lookup j (set_nx o k v w).0 ≡ (if text_eq k j then some v else lookup j w))
small_set none k v w p e = (p, λ j. lookup-insert k j v w)
small_set (some x) k v w p e = cc

small_pexpire :
    (k j : Text) (n : ℕ) (w : Store) → 0 < n → lookup j (expire (pos n) k w) ≡ lookup j w
small_pexpire k j zero w h = absurd (omega arith)
small_pexpire k j (suc n) w h = refl

small_drops :
    (k j : Text) (ms : ℤ) (w : Store)
    → leb_ℤ ms (pos 0) ≡ true
    → lookup j (expire ms k w) ≡ (if text_eq k j then none else lookup j w)
small_drops k j (pos zero) w h = lookup-delete k j w
small_drops k j (pos (suc n)) w h = ground arith
small_drops k j (negsuc n) w h = lookup-delete k j w

decided : (o : Option Text) (k v : Text) (w : Store) → (b : Bool) × ((set_nx o k v w).1 ≡ ok b)
decided none k v w = (true, refl)
decided (some x) k v w = (false, refl)

small-IsReliable : IsReliable small
small-IsReliable = record {
  answers = λ script w. ((script w).1, refl);
  decides = λ k v ttl w. decided (lookup k w) k v w;
}

small-IsRedis : IsRedis small
small-IsRedis = record {
  set_nx_set = λ k v ttl w e. small_set (lookup k w) k v w refl e;
  set_nx_kept = λ k v ttl w e. small_kept (lookup k w) k v w refl e;
  del_get = λ k j w. lookup-delete k j w;
  del_count = λ k v w e. rw e;
  pexpire_get = small_pexpire;
  pexpire_drops = small_drops;
  pexpire_count = λ k v ms w e. rw e;
  run_once = λ script w n e. (refl, ground arith);
}

abbrev job : Text
job = codes "job"

abbrev mine : Text
mine = codes "t1"

abbrev taken_store : Store
taken_store = (job, mine) ∷ []

redis_refresh_short_example :
    let r = redis_refresh small job mine (pos 999_999) taken_store in
    (r.1 ≡ none) × (lookup job r.0 ≡ none)
unfolding refresh_script milliseconds lookup text_eq
redis_refresh_short_example =
    redis_refresh_short small small-IsRedis job mine 999_999 taken_store 1 (omega arith) refl refl

abbrev rivals : List Command
rivals = acquires job (codes "t2") (pos 5) ∷ releases job (codes "t2") ∷ []

not_mine : codes "t2" ≢ mine
unfolding text_eq
not_mine e = cc ((text_eq_iff (codes "t2") mine).1 e)

execute_all-Owns_example : Owns small job mine (execute_all small rivals taken_store)
unfolding lookup text_eq
execute_all-Owns_example =
    execute_all-Owns small small-IsRedis small-IsReliable job mine rivals taken_store
      (not_mine, (not_mine, tt)) refl
