-- ===== src/Sql/Once.antt =====
-- The client of a component of db/ or postgres/ is made once, and closed once.
use mathlib.Core.Option.{some_inj}
use go_infra.Prelude.{ℕ, none, some, ◌≡◌, sym, ap, ◌∙◌, arith, Bool-cases, Option-cases, inl, inr}
use go_infra.Prelude.Text.{is_empty}
use go_infra.Sql.{SqlComponent, SqlLib, ensure_client, close}

module _ {W : Type 0} (lib : SqlLib W) where
  ensured :
      (c c1 : SqlComponent) (n : ℕ) (w w1 : W)
      → ensure_client lib c w ≡ some (c1, n, w1)
      → c1.client ≡ some n
  unfolding ensure_client
  ensured c c1 n w w1 h = elim (Option-cases c.client) [
    | inr (m, e) ↦
        let same = some_inj.0 (rw (e, ensure_client) at h) in
        ap (λ (x : SqlComponent × ℕ × W). x.0.client) (sym same)
        ∙ e
        ∙ ap (λ (x : SqlComponent × ℕ × W). some x.1) same
    | inl e ↦ elim (Bool-cases (is_empty c.dsn)) [
      | inl x ↦ cc (rw (e, ensure_client, x) at h)
      | inr x ↦
          let same = some_inj.0 (rw (e, ensure_client, x) at h) in
          ap (λ (y : SqlComponent × ℕ × W). y.0.client) (sym same)
          ∙ ap (λ (y : SqlComponent × ℕ × W). some y.1) same
    ]
  ]

  -- A component keeps the client that it made until it is closed; then it has none, and to close it
  -- again does nothing.
  pub ensure_client_once :
      (c c1 : SqlComponent) (n : ℕ) (w w1 w2 : W)
      → ensure_client lib c w ≡ some (c1, n, w1)
      → (ensure_client lib c1 w2 ≡ some (c1, n, w2))
        × (close lib (close lib c1 w2).0 w2 ≡ ((close lib c1 w2).0, w2, none))
  unfolding ensure_client close
  ensure_client_once c c1 n w w1 w2 h =
      let has = ensured c c1 n w w1 h in (ground (arith, has), ground (arith, has))
