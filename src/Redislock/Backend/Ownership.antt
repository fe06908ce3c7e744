-- ===== src/Redislock/Backend/Ownership.antt =====
-- `RedisBackend` of redislock/manager.go keeps the owner of a key: it is the token that took the
-- key, and only that token gives it back or prolongs it.
use mathlib.Core.Bool.{false≢true}
use go_infra.Prelude.{
  ℕ, zero, suc, ◌/◌, ◌<◌, ◌≤◌, Bool, true, false, Option, none, some, List, [], ◌∷◌, ◌≡◌, ◌≢◌, refl,
  sym, ◌∙◌, ◌⊎◌, ◌↔◌, inl, inr, arith, if◌then◌else◌, Bool-cases, All,
}
use go_infra.Prelude.Text.{Text, text_eq, text_eq_iff, text_eq_refl}
use go_infra.Prelude.Int.{ℤ, pos, negsuc, leb_ℤ}
use go_infra.Redislock.Errors.{lock_not_held, ok}
use go_infra.Redislock.Backend.{
  RedisClient, holds, release_script, refresh_script, redis_acquire, redis_release, redis_refresh,
  milliseconds,
}

-- What the documentation of Redis and go-redis says of the commands. Nothing is said of the keys
-- after a call that failed: the server may have executed it or not.
pub record IsRedis {W : Type 0} (c : RedisClient W) : Type 0 where
  pub set_nx_set :
      (k v : Text) (ttl : ℤ) (w : W)
      → (c.set_nx k v ttl w).1 ≡ ok true
      → (c.get k w ≡ none)
        × ((j : Text)
            → c.get j (c.set_nx k v ttl w).0 ≡ (if text_eq k j then some v else c.get j w))
  pub set_nx_kept :
      (k v : Text) (ttl : ℤ) (w : W)
      → (c.set_nx k v ttl w).1 ≡ ok false
      → (c.get k w ≢ none) × ((j : Text) → c.get j (c.set_nx k v ttl w).0 ≡ c.get j w)
  pub del_get :
      (k j : Text) (w : W) → c.get j (c.del k w).0 ≡ (if text_eq k j then none else c.get j w)
  pub del_count : (k v : Text) (w : W) → c.get k w ≡ some v → (c.del k w).1 ≡ 1
  pub pexpire_get :
      (k j : Text) (n : ℕ) (w : W) → 0 < n → c.get j (c.pexpire k (pos n) w).0 ≡ c.get j w
  pub pexpire_drops :
      (k j : Text) (ms : ℤ) (w : W)
      → leb_ℤ ms (pos 0) ≡ true
      → c.get j (c.pexpire k ms w).0 ≡ (if text_eq k j then none else c.get j w)
  pub pexpire_count : (k v : Text) (ms : ℤ) (w : W) → c.get k w ≡ some v → (c.pexpire k ms w).1 ≡ 1
  pub run_once :
      (script : W → W × ℕ) (w : W) (n : ℕ)
      → (c.run script w).1 ≡ ok n
      → ((c.run script w).0 ≡ (script w).0) × ((script w).1 ≡ n)

holds_iff : (o : Option Text) (t : Text) → (holds o t ≡ true) ↔ (o ≡ some t)
holds_iff none t = ground arith
holds_iff (some v) t = ground (arith, text_eq_iff v t)

-- A token owns a key if the server holds it there.
abbrev pub Owns : {W : Type 0} → RedisClient W → Text → Text → W → Type 0
Owns c key token w = c.get key w ≡ some token

module _ {W : Type 0} (c : RedisClient W) (laws : IsRedis c) (key token : Text) where
  -- The script deletes the entry of this token only, and counts what it deleted.
  release_script_hit :
      (w : W) (j : Text)
      → Owns c key token w
      → (c.get j (release_script c key token w).0 ≡ (if text_eq key j then none else c.get j w))
        × ((release_script c key token w).1 ≡ 1)
  unfolding release_script
  release_script_hit w j own =
      rw ((holds_iff (c.get key w) token).1 own, release_script)
        (laws.del_get key j w, laws.del_count key token w own)

  release_script_miss : (w : W) → ¬ Owns c key token w → release_script c key token w ≡ (w, 0)
  unfolding release_script
  release_script_miss w other = ground (arith, holds_iff (c.get key w) token)

  refresh_script_hit :
      (w : W) (ms : ℤ)
      → Owns c key token w
      → (refresh_script c key token ms w ≡ c.pexpire key ms w)
        × ((refresh_script c key token ms w).1 ≡ 1)
  unfolding refresh_script
  refresh_script_hit w ms own =
      rw ((holds_iff (c.get key w) token).1 own, refresh_script)
        (refl, laws.pexpire_count key token ms w own)

  refresh_script_miss :
      (w : W) (ms : ℤ) → ¬ Owns c key token w → refresh_script c key token ms w ≡ (w, 0)
  unfolding refresh_script
  refresh_script_miss w ms other = ground (arith, holds_iff (c.get key w) token)

  kept :
      (ttl : ℕ) (w : W) (j : Text)
      → 1_000_000 ≤ ttl
      → c.get j (c.pexpire key (milliseconds (pos ttl)) w).0 ≡ c.get j w
  unfolding milliseconds
  kept ttl w j big = laws.pexpire_get key j (ttl / 1_000_000) w (omega arith)

  dropped :
      (ttl : ℕ) (w : W)
      → ttl < 1_000_000
      → c.get key (c.pexpire key (milliseconds (pos ttl)) w).0 ≡ none
  unfolding milliseconds
  dropped ttl w small =
      let zero_ms : ttl / 1_000_000 ≡ 0 = omega arith in
      rw zero_ms (laws.pexpire_drops key key (pos 0) w refl ∙ simp text_eq_refl)

  -- A release that succeeds was made by the owner, and frees this key alone; one that reports
  -- `ErrLockNotHeld` after the script ran was not, and changes no key.
  pub redis_release_owner :
      (w : W) (j : Text) (n : ℕ)
      → (c.run (release_script c key token) w).1 ≡ ok n
      → let r = redis_release c key token w in
        ((Owns c key token w)
          × (r.1 ≡ none)
          × (c.get j r.0 ≡ (if text_eq key j then none else c.get j w)))
        ⊎ ((¬ Owns c key token w) × (r.1 ≡ some lock_not_held) × (c.get j r.0 ≡ c.get j w))
  unfolding redis_release
  redis_release_owner w j n e = elim (Bool-cases (holds (c.get key w) token)) [
    | inl h ↦
        let own = (holds_iff (c.get key w) token).0 h in
        let ran = laws.run_once (release_script c key token) w n e in
        let hit = release_script_hit w j own in inl (own, rw (e, ← ran.1, hit.1), rw ran.0 hit.0)
    | inr h ↦
        let other : ¬ Owns c key token w =
          λ own. false≢true (sym h ∙ (holds_iff (c.get key w) token).1 own) in
        let ran = laws.run_once (release_script c key token) w n e in
        let miss = release_script_miss w other in
        inr (other, rw (e, ← ran.1, miss), rw (ran.0, miss))
  ]

  -- A refresh for at least a millisecond whose script ran changes no value. It succeeds for the owner
  -- and reports `ErrLockNotHeld` to anybody else.
  pub redis_refresh_owner :
      (ttl : ℕ) (w : W) (j : Text) (n : ℕ)
      → 1_000_000 ≤ ttl
      → (c.run (refresh_script c key token (milliseconds (pos ttl))) w).1 ≡ ok n
      → let r = redis_refresh c key token (pos ttl) w in
        (c.get j r.0 ≡ c.get j w)
        × ((Owns c key token w × (r.1 ≡ none))
            ⊎ ((¬ Owns c key token w) × (r.1 ≡ some lock_not_held)))
  unfolding redis_refresh
  redis_refresh_owner ttl w j n big e = elim (Bool-cases (holds (c.get key w) token)) [
    | inl h ↦
        let own = (holds_iff (c.get key w) token).0 h in
        let ran = laws.run_once (refresh_script c key token (milliseconds (pos ttl))) w n e in
        let hit = refresh_script_hit w (milliseconds (pos ttl)) own in
        (rw (ran.0, hit.0) (kept ttl w j big), inl (own, rw (e, ← ran.1, hit.1)))
    | inr h ↦
        let other : ¬ Owns c key token w =
          λ own. false≢true (sym h ∙ (holds_iff (c.get key w) token).1 own) in
        let ran = laws.run_once (refresh_script c key token (milliseconds (pos ttl))) w n e in
        let miss = refresh_script_miss w (milliseconds (pos ttl)) other in
        (rw (ran.0, miss), inr (other, rw (e, ← ran.1, miss)))
  ]

  -- A refresh by the owner for less than a millisecond, whose script ran, drops the key that it should
  -- prolong, and reports success.
  pub redis_refresh_short :
      (ttl : ℕ) (w : W) (n : ℕ)
      → ttl < 1_000_000
      → Owns c key token w
      → (c.run (refresh_script c key token (milliseconds (pos ttl))) w).1 ≡ ok n
      → let r = redis_refresh c key token (pos ttl) w in (r.1 ≡ none) × (c.get key r.0 ≡ none)
  unfolding redis_refresh
  redis_refresh_short ttl w n small own e =
      let ran = laws.run_once (refresh_script c key token (milliseconds (pos ttl))) w n e in
      let hit = refresh_script_hit w (milliseconds (pos ttl)) own in
      (rw (e, ← ran.1, hit.1), rw (ran.0, hit.0) (dropped ttl w small))

-- What any client asks of the server: a key, a token, and a time to live.
pub data Command : Type 0 where
  acquires refreshes : Text → Text → ℤ → Command
  releases : Text → Text → Command

-- No call fails on the way to the server or back.
pub record IsReliable {W : Type 0} (c : RedisClient W) : Type 0 where
  pub answers : (script : W → W × ℕ) (w : W) → (n : ℕ) × ((c.run script w).1 ≡ ok n)
  pub decides : (k v : Text) (ttl : ℤ) (w : W) → (b : Bool) × ((c.set_nx k v ttl w).1 ≡ ok b)

abbrev pub execute : {W : Type 0} → RedisClient W → Command → W → W
execute c (acquires k t ttl) w = (redis_acquire c k t ttl w).0
execute c (refreshes k t ttl) w = (redis_refresh c k t ttl w).0
execute c (releases k t) w = (redis_release c k t w).0

abbrev pub execute_all : {W : Type 0} → RedisClient W → List Command → W → W
execute_all c [] w = w
execute_all c (x ∷ xs) w = execute_all c xs (execute c x w)

-- The command bears another token.
abbrev pub Foreign : Text → Command → Type 0
Foreign token (acquires k t ttl) = t ≢ token
Foreign token (refreshes k t ttl) = t ≢ token
Foreign token (releases k t) = t ≢ token

module _ {W : Type 0} (c : RedisClient W) (laws : IsRedis c) (calm : IsReliable c)
    (key token : Text) where
  -- A script of another token leaves the owner of the key alone.
  acquire_foreign :
      (k t : Text) (ttl : ℤ) (w : W) (b : Bool)
      → Owns c key token w
      → (c.set_nx k t ttl w).1 ≡ ok b
      → Owns c key token (c.set_nx k t ttl w).0
  acquire_foreign k t ttl w true own e =
      let h = laws.set_nx_set k t ttl w e in ground (arith, h.0, h.1 key, text_eq_iff k key)
  acquire_foreign k t ttl w false own e = let h = laws.set_nx_kept k t ttl w e in h.1 key ∙ own

  release_foreign :
      (k t : Text) (w : W)
      → t ≢ token
      → Owns c key token w
      → Owns c key token (release_script c k t w).0
  unfolding release_script
  release_foreign k t w other own =
      ground (arith, laws.del_get k key w, text_eq_iff k key, holds_iff (c.get k w) t)

  pexpire_elsewhere :
      (k : Text) (ms : ℤ) (w : W)
      → text_eq k key ≡ false
      → c.get key (c.pexpire k ms w).0 ≡ c.get key w
  pexpire_elsewhere k (pos zero) w h = laws.pexpire_drops k key (pos 0) w refl ∙ rw h
  pexpire_elsewhere k (pos (suc n)) w h = laws.pexpire_get k key (suc n) w (omega arith)
  pexpire_elsewhere k (negsuc n) w h = laws.pexpire_drops k key (negsuc n) w (ground arith) ∙ rw h

  refresh_foreign :
      (k t : Text) (ms : ℤ) (w : W)
      → t ≢ token
      → Owns c key token w
      → Owns c key token (refresh_script c k t ms w).0
  unfolding refresh_script
  refresh_foreign k t ms w other own = elim (Bool-cases (holds (c.get k w) t)) [
    | inl h ↦
        let elsewhere : text_eq k key ≡ false =
          ground (arith, text_eq_iff k key, holds_iff (c.get k w) t) in
        rw (h, refresh_script) (pexpire_elsewhere k ms w elsewhere ∙ own)
    | inr h ↦ rw (h, refresh_script) own
  ]

  execute-Foreign :
      (x : Command) (w : W)
      → Foreign token x
      → Owns c key token w
      → Owns c key token (execute c x w)
  unfolding redis_acquire redis_release redis_refresh
  execute-Foreign (acquires k t ttl) w other own =
      let (b, e) = calm.decides k t ttl w in acquire_foreign k t ttl w b own e
  execute-Foreign (refreshes k t ttl) w other own =
      let script = refresh_script c k t (milliseconds ttl) in
      let (n, e) = calm.answers script w in
      rw ((laws.run_once script w n e).0) (refresh_foreign k t (milliseconds ttl) w other own)
  execute-Foreign (releases k t) w other own =
      let script = release_script c k t in
      let (n, e) = calm.answers script w in
      rw ((laws.run_once script w n e).0) (release_foreign k t w other own)

  -- Where no call fails and nothing expires, a token keeps its key through any commands that other
  -- tokens give, for this key or for others: nobody else acquires, releases or drops it.
  pub execute_all-Owns :
      (xs : List Command) (w : W)
      → All (Foreign token) xs
      → Owns c key token w
      → Owns c key token (execute_all c xs w)
  execute_all-Owns [] w h own = own
  execute_all-Owns (x ∷ xs) w h own =
      execute_all-Owns xs (execute c x w) h.1 (execute-Foreign x w h.0 own)
