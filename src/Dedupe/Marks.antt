-- ===== src/Dedupe/Marks.antt =====
-- The manager of dedupe/manager.go over Redis is a set of marked keys.
use go_infra.Prelude.{
  Bool, not, ◌&&◌, ◌||◌, Option, none, some, List, [], ◌∷◌, ◌≡◌, refl, ap, ◌∙◌, arith,
  if◌then◌else◌,
}
use go_infra.Prelude.Text.{Text, codes, text_eq, is_empty}
use go_infra.Prelude.Int.{ℤ, pos, leb_ℤ}
use mathlib.Core.Path.{fun_ext}
use go_infra.Dedupe.{
  Error, key_required, ttl_required, dedupe_error, Result, ok, err, RedisClient, redis_backend,
  manager_try_mark, manager_marked, manager_clear, Op,
}

-- What is used of Redis while no call fails and no key expires: `SETNX` sets a key that is missing
-- and says so, `EXISTS` counts the key, and `DEL` removes it. `stored` says which keys there are.
pub record IsRedis {W : Type 0} (c : RedisClient W) (stored : Text → W → Bool) : Type 0 where
  pub set_nx_answers :
      (k v : Text) (ttl : ℤ) (w : W) → (c.set_nx k v ttl w).1 ≡ ok (not (stored k w))
  pub set_nx_stores :
      (k v j : Text) (ttl : ℤ) (w : W)
      → stored j (c.set_nx k v ttl w).0 ≡ (text_eq k j || stored j w)
  pub exists_answers : (k : Text) (w : W) → (c.exists_keys k w).1 ≡ ok (if stored k w then 1 else 0)
  pub exists_keeps : (k j : Text) (w : W) → stored j (c.exists_keys k w).0 ≡ stored j w
  pub del_answers : (k : Text) (w : W) → (c.del k w).1 ≡ none
  pub del_removes :
      (k j : Text) (w : W) → stored j (c.del k w).0 ≡ (not (text_eq k j) && stored j w)

-- A call of the manager, and its answer.
pub data Call : Type 0 where
  try_marks : Text → ℤ → Call
  asks clears : Text → Call

pub data Answer : Type 0 where
  says : Result Bool → Answer
  ends : Option Error → Answer

-- The specification: a set of marked keys.
abbrev pub Marks : Type 0
Marks = Text → Bool

abbrev pub spec_try : Text → ℤ → Marks → Marks × Answer
spec_try k ttl s =
    if is_empty k
    then (s, says (err (dedupe_error Op.try_mark k key_required)))
    else if leb_ℤ ttl (pos 0)
    then (s, says (err (dedupe_error Op.try_mark k ttl_required)))
    else (λ j. text_eq k j || s j, says (ok (not (s k))))

abbrev pub spec_call : Call → Marks → Marks × Answer
spec_call (try_marks k ttl) s = spec_try k ttl s
spec_call (asks k) s =
    if is_empty k
    then (s, says (err (dedupe_error Op.marked k key_required)))
    else (s, says (ok (s k)))
spec_call (clears k) s =
    if is_empty k
    then (s, ends (some (dedupe_error Op.clear k key_required)))
    else (λ j. not (text_eq k j) && s j, ends none)

abbrev pub spec_run : List Call → Marks → Marks × List Answer
spec_run [] s = (s, [])
spec_run (x ∷ xs) s =
    let (s', answer) = spec_call x s in let (s2, answers) = spec_run xs s' in (s2, answer ∷ answers)

module _ {W : Type 0} (c : RedisClient W) where
  -- The calls of the manager over Redis.
  unfoldable pub call : Call → W → W × Answer
  call (try_marks k ttl) w =
      let (w', r) = manager_try_mark (redis_backend c) k ttl w in (w', says r)
  call (asks k) w = let (w', r) = manager_marked (redis_backend c) k w in (w', says r)
  call (clears k) w = let (w', r) = manager_clear (redis_backend c) k w in (w', ends r)

  unfoldable pub run_calls : List Call → W → W × List Answer
  unfolding call
  run_calls [] w = (w, [])
  run_calls (x ∷ xs) w =
      let (w', answer) = call x w in let (w2, answers) = run_calls xs w' in (w2, answer ∷ answers)

module _ {W : Type 0} (c : RedisClient W) (stored : Text → W → Bool) (laws : IsRedis c stored) where
  -- What is marked in a world.
  abbrev pub marks : W → Marks
  marks w j = stored j w

  call-spec_call :
      (x : Call) (w : W)
      → ((j : Text) → stored j (call c x w).0 ≡ (spec_call x (marks w)).0 j)
        × ((call c x w).1 ≡ (spec_call x (marks w)).1)
  unfolding call manager_try_mark manager_marked manager_clear redis_backend
  call-spec_call (try_marks k ttl) w = (
    λ j. ground (arith, laws.set_nx_stores k (codes "1") j ttl w),
    ground (arith, laws.set_nx_answers k (codes "1") ttl w),
  )
  call-spec_call (asks k) w =
      (λ j. ground (arith, laws.exists_keeps k j w), ground (arith, laws.exists_answers k w))
  call-spec_call (clears k) w =
      (λ j. ground (arith, laws.del_removes k j w), ground (arith, laws.del_answers k w))

  -- Any calls give the answers of the set of marked keys, and leave its marks: where nothing fails
  -- and no key expires, the first `TryMark` of a key, or the first after a `Clear`, answers true and
  -- every other one false.
  pub run_calls-spec_run :
      (xs : List Call) (w : W)
      → ((j : Text) → stored j (run_calls c xs w).0 ≡ (spec_run xs (marks w)).0 j)
        × ((run_calls c xs w).1 ≡ (spec_run xs (marks w)).1)
  unfolding run_calls
  run_calls-spec_run [] w = (λ j. refl, refl)
  run_calls-spec_run (x ∷ xs) w =
      let (now, said) = call-spec_call x w in
      let step : marks (call c x w).0 ≡ (spec_call x (marks w)).0 = fun_ext now in
      let (later, told) = run_calls-spec_run xs (call c x w).0 in
      (
        λ j. later j ∙ ap (λ (s : Marks). (spec_run xs s).0 j) step,
        cc (said, told ∙ ap (λ (s : Marks). (spec_run xs s).1) step),
      )
