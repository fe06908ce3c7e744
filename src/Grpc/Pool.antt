-- ===== src/Grpc/Pool.antt =====
-- `ClientPool` of internal/grpc/client_pool.go. A connection is a number, and `none` is a panic.
pub mod Turns
use go_infra.Prelude.{
  ℕ, zero, suc, ◌+◌, ◌%◌, ◌^◌, Bool, true, false, Option, none, some, List, [], ◌∷◌, length,
  get_elem?, ◌==◌, if◌then◌else◌,
}
use go_infra.Prelude.Text.{Text, is_empty}
use go_infra.Prelude.Int.{ℤ, pos, leb_ℤ, pos_part}

pub record ClientPool : Type 0 where
  pub conns : List ℕ
  pub counter : ℕ

-- The size of a pool, at least one.
abbrev pub size_of : ℤ → ℕ
size_of n = if leb_ℤ n (pos 0) then 1 else pos_part n

-- The library: `dial` with the options of the package, or a panic; and `Close` of a connection.
pub record Dialler (W O : Type 0) : Type 0 where
  pub dial : Text → List O → W → Option (ℕ × W)
  pub close_conn : ℕ → W → W × Option Text

abbrev pub first_error : Option Text → Option Text → Option Text
first_error none e = e
first_error (some e) e' = some e

module _ {W O : Type 0} (lib : Dialler W O) where
  -- The loop of `NewClientPool`, for as many connections as are left.
  dial_all : ℕ → Text → List O → W → Option (List ℕ × W)
  dial_all zero address opts w = some ([], w)
  dial_all (suc n) address opts w = elim (lib.dial address opts w) [
    | none ↦ none
    | some (conn, w') ↦ elim (dial_all n address opts w') [
      | none ↦ none
      | some (conns, w2) ↦ some (conn ∷ conns, w2)
    ]
  ]

  pool_of : Option (List ℕ × W) → Option (ClientPool × W)
  pool_of none = none
  pool_of (some (conns, w)) = some (record { conns = conns; counter = 0 }, w)

  unfoldable pub new_client_pool : Text → ℤ → List O → W → Option (ClientPool × W)
  unfolding dial_all pool_of
  new_client_pool address size opts w =
      if is_empty address then none else pool_of (dial_all (size_of size) address opts w)

  close_all : List ℕ → W → W × Option Text
  close_all [] w = (w, none)
  close_all (conn ∷ conns) w =
      let (w1, e1) = lib.close_conn conn w in
      let (w2, e2) = close_all conns w1 in (w2, first_error e1 e2)

  unfoldable pub pool_close : ClientPool → W → W × Option Text
  unfolding close_all
  pool_close p w = close_all p.conns w

-- The counter of `Get`, after its atomic `Add(1)`.
abbrev pub bumped : ClientPool → ClientPool
bumped p = record p { counter = (p.counter + 1) % 2 ^ 64 }

taken_from : ClientPool → Option ℕ → Option (ClientPool × ℕ)
taken_from p none = none
taken_from p (some conn) = some (p, conn)

unfoldable pub get : ClientPool → Option (ClientPool × ℕ)
unfolding taken_from
get p =
    if length p.conns == 0
    then none
    else taken_from (bumped p) (get_elem? p.conns ((bumped p).counter % length p.conns))
