-- ===== src/Tests/DedupeMarks.antt =====
-- The manager of dedupe/manager.go over a store that is a list of keys.
use go_infra.Prelude.{
  Bool, true, false, not, ◌&&◌, ◌||◌, none, List, [], ◌∷◌, ◌≡◌, refl, arith, if◌then◌else◌,
}
use go_infra.Prelude.Text.{Text, codes, text_eq, text_eq_iff}
use go_infra.Prelude.Int.{pos}
use go_infra.Dedupe.{ok, RedisClient}
use go_infra.Dedupe.Marks.{
  IsRedis, Call, try_marks, asks, clears, says, ends, spec_run, run_calls, run_calls-spec_run,
}

abbrev stored : Text → List Text → Bool
stored k [] = false
stored k (x ∷ xs) = text_eq x k || stored k xs

abbrev without : Text → List Text → List Text
without k [] = []
without k (x ∷ xs) = let rest = without k xs in if text_eq k x then rest else x ∷ rest

abbrev small_client : RedisClient (List Text)
small_client = record {
  set_nx = λ k v ttl w. if stored k w then (w, ok false) else (k ∷ w, ok true);
  exists_keys = λ k w. (w, ok (if stored k w then 1 else 0));
  del = λ k w. (without k w, none);
}

stored-without :
    (k j : Text) (w : List Text) → stored j (without k w) ≡ (not (text_eq k j) && stored j w)
stored-without k j [] = ground arith
stored-without k j (x ∷ xs) =
    ground (arith, stored-without k j xs, text_eq_iff k x, text_eq_iff x j, text_eq_iff k j)

stored_same :
    (k j : Text) (w : List Text) → stored k w ≡ true → stored j w ≡ (text_eq k j || stored j w)
stored_same k j w h = ground (arith, text_eq_iff k j)

small_client-IsRedis : IsRedis small_client stored
small_client-IsRedis = record {
  set_nx_answers = λ k v ttl w. ground arith;
  set_nx_stores = λ k v j ttl w. ground (arith, stored_same k j w);
  exists_answers = λ k w. refl;
  exists_keeps = λ k j w. refl;
  del_answers = λ k w. refl;
  del_removes = stored-without;
}

abbrev calls : List Call
calls =
    try_marks (codes "m1") (pos 5)
    ∷ try_marks (codes "m1") (pos 5)
    ∷ clears (codes "m1")
    ∷ asks (codes "m1")
    ∷ []

run_calls-spec_run_example :
    ((j : Text)
      → stored j (run_calls small_client calls []).0 ≡ (spec_run calls (λ j. stored j [])).0 j)
    × ((run_calls small_client calls []).1 ≡ (spec_run calls (λ j. stored j [])).1)
run_calls-spec_run_example = run_calls-spec_run small_client stored small_client-IsRedis calls []

calls_answers :
    (spec_run calls (λ j. false)).1
    ≡ says (ok true) ∷ says (ok false) ∷ ends none ∷ says (ok false) ∷ []
unfolding text_eq
calls_answers = refl
