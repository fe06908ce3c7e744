-- ===== src/Redislock/Queue/Fifo.antt =====
-- Histories of the local queue at one key: who is served, and in which order.
use mathlib.Core.List.{append_assoc, append-nil}
use go_infra.Prelude.{
  ℕ, zero, suc, Option, none, some, List, [], ◌∷◌, ◌++◌, ◌≡◌, ap, ◌∙◌, arith, length,
}
use go_infra.Prelude.Text.{Text, text_eq_refl}
use go_infra.Redislock.Queue.{LocalKeyQueue, acquire_begin, release}
use go_infra.Redislock.Queue.Laws.{
  free, busy, view, IsTidy, spec_release, acquire_begin-view, acquire_begin-IsTidy, release-view,
  release-IsTidy,
}

-- Calls of `acquire` for the same key, each with its channel, up to their `select`.
pub arrive : Text → List ℕ → LocalKeyQueue → LocalKeyQueue
arrive key [] q = q
arrive key (w ∷ ws) q = arrive key ws (acquire_begin key w q).0

cons_signal : Option ℕ → List ℕ → List ℕ
cons_signal none cs = cs
cons_signal (some c) cs = c ∷ cs

-- `n` calls of `release`, and the channels that they close.
pub releases : ℕ → Text → LocalKeyQueue → LocalKeyQueue × List ℕ
unfolding cons_signal
releases zero key q = (q, [])
releases (suc n) key q =
    let r = release key q in let (q', cs) = releases n key r.0 in (q', cons_signal r.1 cs)

begin_busy :
    (key : Text) (w : ℕ) (vs : List ℕ) (q : LocalKeyQueue)
    → IsTidy q
    → view key q ≡ busy vs
    → view key (acquire_begin key w q).0 ≡ busy (vs ++ w ∷ [])
begin_busy key w vs q t e = ground (arith, acquire_begin-view key key q t w, text_eq_refl key)

release_step :
    (key : Text) (q : LocalKeyQueue)
    → IsTidy q
    → (view key (release key q).0 ≡ (spec_release (view key q)).0)
      × ((release key q).1 ≡ (spec_release (view key q)).1)
release_step key q t = ground (arith, release-view key key q t, text_eq_refl key)

pub arrive-view :
    (key : Text) (vs ws : List ℕ) (q : LocalKeyQueue)
    → IsTidy q
    → view key q ≡ busy vs
    → (view key (arrive key ws q) ≡ busy (vs ++ ws)) × IsTidy (arrive key ws q)
unfolding arrive
arrive-view key vs [] q t e = (rw append-nil e, t)
arrive-view key vs (w ∷ ws) q t e =
    let h =
      arrive-view key (vs ++ w ∷ []) ws (acquire_begin key w q).0 (acquire_begin-IsTidy key q t w)
        (begin_busy key w vs q t e) in
    (h.0 ∙ ap busy (append_assoc vs (w ∷ []) ws), h.1)

pub releases-view :
    (key : Text) (ws : List ℕ) (q : LocalKeyQueue)
    → IsTidy q
    → view key q ≡ busy ws
    → (view key (releases (suc (length ws)) key q).0 ≡ free)
      × ((releases (suc (length ws)) key q).1 ≡ ws)
unfolding releases
releases-view key [] q t e = ground (arith, release_step key q t)
releases-view key (w ∷ ws) q t e =
    ground
      (arith, release_step key q t, releases-view key ws (release key q).0 (release-IsTidy key q t))

-- A key that is free is taken by the first to come; the others wait, are served in the order of
-- their arrival, one by each release, and the last release makes the key free again.
pub arrive-releases :
    (key : Text) (first : ℕ) (ws : List ℕ) (q : LocalKeyQueue)
    → IsTidy q
    → view key q ≡ free
    → let r = releases (suc (length ws)) key (arrive key (first ∷ ws) q) in
      (view key r.0 ≡ free) × (r.1 ≡ ws)
unfolding arrive
arrive-releases key first ws q t e =
    let taken_first : view key (acquire_begin key first q).0 ≡ busy [] =
      ground (arith, acquire_begin-view key key q t first, text_eq_refl key) in
    let h = arrive-view key [] ws _ (acquire_begin-IsTidy key q t first) taken_first in
    releases-view key ws _ h.1 h.0
