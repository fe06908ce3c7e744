-- ===== src/Tests/GrpcPool.antt =====
-- A pool of internal/grpc/ over a library that numbers its connections.
use go_infra.Prelude.{ℕ, ◌+◌, ◌≡◌, none, some, List, [], ◌∷◌, refl, arith, length, get_elem?}
use go_infra.Prelude.Text.{Text, codes}
use go_infra.Prelude.Int.{pos}
use go_infra.Grpc.Pool.{ClientPool, Dialler, new_client_pool}
use go_infra.Grpc.Pool.Turns.{gets, new_pool_turns}

abbrev numbering : Dialler ℕ Text
numbering = record { dial = λ address opts w. some (w, w + 1); close_conn = λ conn w. (w, none) }

abbrev three : ClientPool
three = record { conns = 4 ∷ 5 ∷ 6 ∷ []; counter = 0 }

new_pool_turns_example :
    (p' : ClientPool) × (cs : List ℕ) × (gets 3 three ≡ some (p', cs))
    × ◌≡◌ {A = ℕ} 3 3
    × (length cs ≡ 3)
    × ((i : ℕ) × (get_elem? cs i ≡ some 6))
unfolding new_client_pool get_elem?
new_pool_turns_example =
    new_pool_turns numbering (codes "a:1") (pos 3) [] 4 7 three 2 6 (omega arith) refl refl
