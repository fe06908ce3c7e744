-- ===== src/Grpc/Pool/Turns.antt =====
-- The turns of the connections of a pool of internal/grpc/client_pool.go.
use mathlib.Core.Option.{some_inj}
use native.Mathlib.Nat.{mod-lt, mod-eq_of_lt, mod-add-mod, add-mod_right}
use go_infra.Prelude.{
  ℕ, zero, suc, ◌+◌, ◌-◌, ◌%◌, ◌^◌, ◌<◌, Option, none, some, List, [], ◌∷◌, ◌≡◌, refl, sym, ap, ◌∙◌,
  arith, length, get_elem?, get_elem?_lem, get_elem?-lt, inl, inr, Bool-cases, Option-cases, leb,
}
use go_infra.Prelude.Text.{Text, is_empty}
use go_infra.Prelude.Int.{ℤ}
use go_infra.Grpc.Pool.{
  ClientPool, Dialler, size_of, dial_all, pool_of, new_client_pool, bumped, taken_from, get,
}

-- Some calls of `Get`, with what they return.
unfoldable pub gets : ℕ → ClientPool → Option (ClientPool × List ℕ)
gets zero p = some (p, [])
gets (suc n) p = elim (get p) [
  | none ↦ none
  | some (p', conn) ↦ elim (gets n p') [ none ↦ none | some (p2, conns) ↦ some (p2, conn ∷ conns) ]
]

-- A pool that has a connection gives one: `Get` does not panic.
pub get_lem :
    (p : ClientPool)
    → 0 < length p.conns
    → (conn : ℕ) × (get p ≡ some (bumped p, conn))
      × (get_elem? p.conns ((bumped p).counter % length p.conns) ≡ some conn)
unfolding get taken_from
get_lem p some_ =
    let (conn, h) =
      get_elem?_lem p.conns ((bumped p).counter % length p.conns)
        (mod-lt (bumped p).counter some_) in
    (conn, ground (arith, h), h)

bumped-counter : (p : ClientPool) → p.counter + 1 < 2 ^ 64 → (bumped p).counter ≡ p.counter + 1
bumped-counter p h = mod-eq_of_lt h

-- What some calls return, before the counter wraps.
gets_lem :
    (k : ℕ) (p : ClientPool)
    → 0 < length p.conns
    → p.counter + k < 2 ^ 64
    → (p' : ClientPool) × (cs : List ℕ) × (gets k p ≡ some (p', cs))
      × (length cs ≡ k)
      × ((i : ℕ)
          → i < k
          → get_elem? cs i ≡ get_elem? p.conns ((p.counter + 1 + i) % length p.conns))
unfolding gets get_elem?
gets_lem zero p h fits = (p, [], refl, refl, λ i lt. absurd (omega arith))
gets_lem (suc k) p h fits =
    let (conn, took, at) = get_lem p h in
    let up = bumped-counter p (omega arith) in
    let (p', cs, ran, size, turns) = gets_lem k (bumped p) h (omega (arith, up)) in
    (p', conn ∷ cs, rw (took, gets, ran) refl, ap suc size, first conn cs at up turns)
  where
    first :
        (conn : ℕ) (cs : List ℕ)
        → get_elem? p.conns ((bumped p).counter % length p.conns) ≡ some conn
        → (bumped p).counter ≡ p.counter + 1
        → ((i : ℕ)
            → i < k
            → get_elem? cs i ≡ get_elem? p.conns (((bumped p).counter + 1 + i) % length p.conns))
        → (i : ℕ) → i < suc k
        → get_elem? (conn ∷ cs) i ≡ get_elem? p.conns ((p.counter + 1 + i) % length p.conns)
    first conn cs at up turns zero lt =
        sym at ∙ ap (λ c. get_elem? p.conns (c % length p.conns)) (up ∙ omega arith)
    first conn cs at up turns (suc i) lt =
        turns i (omega arith) ∙ ap (λ c. get_elem? p.conns (c % length p.conns)) (omega (arith, up))

-- The turn of an index: how many calls it is away.
turn_of : (c n j : ℕ) → j < n → (i : ℕ) × (i < n) × ((c + i) % n ≡ j)
turn_of c n j lt =
    let r = c % n in
    let low : r < n = mod-lt c (omega (arith, lt)) in
    elim (Bool-cases (leb r j)) [
      | inl le ↦
          let sum : r + (j - r) ≡ j = ground (arith, le) in
          (
            j - r,
            omega (arith, lt),
            sym (mod-add-mod c n (j - r)) ∙ ap (λ x. x % n) sum ∙ mod-eq_of_lt lt,
          )
      | inr gt ↦
          let sum : r + (j + n - r) ≡ j + n = omega (arith, low) in
          (
            j + n - r,
            ground (arith, gt),
            sym (mod-add-mod c n (j + n - r))
                ∙ ap (λ x. x % n) sum
                ∙ add-mod_right j n
                ∙ mod-eq_of_lt lt,
          )
    ]

-- While the counter does not wrap, as many calls of `Get` as the pool has connections return every
-- one of them, from whatever turn they start.
pub gets-all :
    (p : ClientPool)
    → 0 < length p.conns
    → p.counter + length p.conns < 2 ^ 64
    → (p' : ClientPool) × (cs : List ℕ) × (gets (length p.conns) p ≡ some (p', cs))
      × (length cs ≡ length p.conns)
      × ((j conn : ℕ) → get_elem? p.conns j ≡ some conn → (i : ℕ) × (get_elem? cs i ≡ some conn))
gets-all p h fits =
    let (p', cs, ran, size, turns) = gets_lem (length p.conns) p h fits in
    (
      p',
      cs,
      ran,
      size,
      λ j conn e.
          let (i, lt, same) =
            turn_of (p.counter + 1) (length p.conns) j (get_elem?-lt p.conns j conn e) in
          (i, turns i lt ∙ ap (get_elem? p.conns) same ∙ e),
    )

module _ {W O : Type 0} (lib : Dialler W O) where
  dial_all-length :
      (n : ℕ) (address : Text) (opts : List O) (w w' : W) (cs : List ℕ)
      → dial_all lib n address opts w ≡ some (cs, w')
      → length cs ≡ n
  unfolding dial_all
  dial_all-length zero address opts w w' cs h =
      ap (λ (x : List ℕ × W). length x.0) (sym (some_inj.0 h))
  dial_all-length (suc n) address opts w w' cs h = elim (Option-cases (lib.dial address opts w)) [
    | inl e ↦ cc (rw (e, dial_all) at h)
    | inr ((conn, w1), e) ↦ elim (Option-cases (dial_all lib n address opts w1)) [
      | inl e' ↦ cc (rw (e, dial_all, e') at h)
      | inr ((cs', w2), e') ↦
          ap (λ (x : List ℕ × W). length x.0) (sym (some_inj.0 (rw (e, dial_all, e') at h)))
          ∙ ap suc (dial_all-length n address opts w1 w2 cs' e')
    ]
  ]

  -- A new pool has as many connections as asked for, at least one.
  pub new_client_pool_lem :
      (address : Text) (size : ℤ) (opts : List O) (w w' : W) (p : ClientPool)
      → new_client_pool lib address size opts w ≡ some (p, w')
      → (length p.conns ≡ size_of size) × (p.counter ≡ 0)
  unfolding new_client_pool pool_of
  new_client_pool_lem address size opts w w' p h = elim (Bool-cases (is_empty address)) [
    | inl e ↦ cc (rw (e, new_client_pool) at h)
    | inr e ↦ elim (Option-cases (dial_all lib (size_of size) address opts w)) [
      | inl e' ↦ cc (rw (e, new_client_pool, e') at h)
      | inr ((cs, w1), e') ↦
          let made = some_inj.0 (rw (e, new_client_pool, e') at h) in
          (
            ap (λ (x : ClientPool × W). length x.0.conns) (sym made)
                ∙ dial_all-length (size_of size) address opts w w1 cs e',
            ap (λ (x : ClientPool × W). x.0.counter) (sym made),
          )
    ]
  ]

  -- A new pool, of a size that fits 64 bits, has as many connections as asked for, at least one,
  -- and that many calls of Get return the connection at any given index.
  pub new_pool_turns :
      (address : Text) (size : ℤ) (opts : List O) (w w' : W) (p : ClientPool) (j conn : ℕ)
      → size_of size < 2 ^ 64
      → new_client_pool lib address size opts w ≡ some (p, w')
      → get_elem? p.conns j ≡ some conn
      → (p' : ClientPool) × (cs : List ℕ) × (gets (size_of size) p ≡ some (p', cs))
        × (length p.conns ≡ size_of size)
        × (length cs ≡ size_of size)
        × ((i : ℕ) × (get_elem? cs i ≡ some conn))
  new_pool_turns address size opts w w' p j conn fits h there =
      let (many, zero_) = new_client_pool_lem address size opts w w' p h in
      let (p', cs, ran, size', turns) =
        gets-all p (ground (arith, many)) (omega (arith, many, zero_, fits)) in
      (p', cs, ap (λ n. gets n p) (sym many) ∙ ran, many, size' ∙ many, turns j conn there)
