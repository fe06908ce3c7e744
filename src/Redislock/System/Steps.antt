-- ===== src/Redislock/System/Steps.antt =====
-- What a step of Redislock.System does to the views of the keys.
use go_infra.Prelude.{
  ℕ, Bool, true, none, some, List, [], ◌∷◌, ◌++◌, ◌≡◌, ◌⊎◌, refl, arith, if◌then◌else◌, inl, inr,
}
use go_infra.Prelude.Text.{Text, text_eq, text_eq_iff}
use go_infra.Redislock.Queue.{LocalKeyQueue, release}
use go_infra.Redislock.Queue.Laws.{
  View, free, busy, view, IsTidy, spec_remove_waiter, try_acquire-view, try_acquire-IsTidy,
  acquire_begin-view, acquire_begin-IsTidy, remove_waiter-view, remove_waiter-IsTidy, release-view,
  release-IsTidy,
}
use go_infra.Redislock.System.{
  Pc, idle, selecting, cancelling, holding, closing, done, update, Move, try_takes, try_misses,
  takes, queues, granted, cancelled, leaves, frees, hands_over, closes,
}

-- The views after one of them was set.
abbrev pub set_view : Text → View → (Text → View) → Text → View
set_view k x v j = if text_eq k j then x else v j

-- The step of call `i` between two families of views.
pub data Acts (i : ℕ) (v v' : Text → View) (closed : ℕ → Bool) : Pc → (ℕ → Bool) → Pc → Type 0 where
  a_takes :
      (k : Text)
      → v k ≡ free
      → ((j : Text) → v' j ≡ set_view k (busy []) v j)
      → Acts i v v' closed idle closed (holding k)
  a_misses : ((j : Text) → v' j ≡ v j) → Acts i v v' closed idle closed done
  a_queues :
      (k : Text) (ws : List ℕ)
      → v k ≡ busy ws
      → ((j : Text) → v' j ≡ set_view k (busy (ws ++ i ∷ [])) v j)
      → Acts i v v' closed idle closed (selecting k)
  a_granted :
      {k : Text}
      → closed i ≡ true
      → ((j : Text) → v' j ≡ v j)
      → Acts i v v' closed (selecting k) closed (holding k)
  a_cancelled :
      {k : Text}
      → ((j : Text) → v' j ≡ v j)
      → Acts i v v' closed (selecting k) closed (cancelling k)
  a_leaves :
      {k : Text}
      → ((j : Text) → v' j ≡ set_view k (spec_remove_waiter i (v k)) v j)
      → Acts i v v' closed (cancelling k) closed done
  a_frees :
      {k : Text}
      → (v k ≡ free) ⊎ (v k ≡ busy [])
      → ((j : Text) → v' j ≡ set_view k free v j)
      → Acts i v v' closed (holding k) closed done
  a_hands_over :
      {k : Text} {c : ℕ} (ws : List ℕ)
      → v k ≡ busy (c ∷ ws)
      → ((j : Text) → v' j ≡ set_view k (busy ws) v j)
      → Acts i v v' closed (holding k) closed (closing c)
  a_closes :
      {c : ℕ}
      → ((j : Text) → v' j ≡ v j)
      → Acts i v v' closed (closing c) (update closed c true) done

abbrev pub views : LocalKeyQueue → Text → View
views q k = view k q

View-cases : (x : View) → (x ≡ free) ⊎ ((ws : List ℕ) × (x ≡ busy ws))
View-cases free = inl refl
View-cases (busy ws) = inr (ws, refl)

module _ (i : ℕ) (q : LocalKeyQueue) (t : IsTidy q) where
  release-Acts :
      (k : Text) (closed : ℕ → Bool) (x : View)
      → view k q ≡ x
      → ((release k q).1 ≡ none
          → Acts i (views q) (views (release k q).0) closed (holding k) closed done)
        × ((c : ℕ)
            → (release k q).1 ≡ some c
            → Acts i (views q) (views (release k q).0) closed (holding k) closed (closing c))
  release-Acts k closed free e = (
    λ h. a_frees (inl e) (λ j. ground (arith, release-view k j q t)),
    λ c h. absurd (ground (arith, release-view k k q t)),
  )
  release-Acts k closed (busy []) e = (
    λ h. a_frees (inr e) (λ j. ground (arith, release-view k j q t)),
    λ c h. absurd (ground (arith, release-view k k q t)),
  )
  release-Acts k closed (busy (w ∷ ws)) e = (
    λ h. absurd (ground (arith, release-view k k q t)),
    λ c h.
        a_hands_over ws (ground (arith, release-view k k q t))
          (λ j. ground (arith, release-view k j q t)),
  )

  -- Every step of the code is a step between the views.
  pub Move-Acts :
      {closed closed' : ℕ → Bool} {p p' : Pc} {q' : LocalKeyQueue}
      → Move i q closed p q' closed' p'
      → Acts i (views q) (views q') closed p closed' p' × IsTidy q'
  Move-Acts (try_takes k h) = (
    a_takes k (ground (arith, try_acquire-view k k q t))
        (λ j. ground (arith, try_acquire-view k j q t)),
    try_acquire-IsTidy k q t,
  )
  Move-Acts (try_misses k h) = (
    a_misses (λ j. ground (arith, try_acquire-view k j q t, text_eq_iff k j)),
    try_acquire-IsTidy k q t,
  )
  Move-Acts (takes k h) = (
    a_takes k (ground (arith, acquire_begin-view k k q t i))
        (λ j. ground (arith, acquire_begin-view k j q t i)),
    acquire_begin-IsTidy k q t i,
  )
  Move-Acts (queues k h) = elim (View-cases (view k q)) [
    | inl e ↦ absurd (ground (arith, acquire_begin-view k k q t i))
    | inr (ws, e) ↦ (
      a_queues k ws e (λ j. ground (arith, acquire_begin-view k j q t i)),
      acquire_begin-IsTidy k q t i,
    )
  ]
  Move-Acts (granted h) = (a_granted h (λ j. refl), t)
  Move-Acts cancelled = (a_cancelled (λ j. refl), t)
  Move-Acts (leaves {k}) =
      (a_leaves (λ j. remove_waiter-view k j q t i), remove_waiter-IsTidy k q t i)
  Move-Acts {closed} (frees {k} h) =
      ((release-Acts k closed (view k q) refl).0 h, release-IsTidy k q t)
  Move-Acts {closed} (hands_over {k} {c} h) =
      ((release-Acts k closed (view k q) refl).1 c h, release-IsTidy k q t)
  Move-Acts closes = (a_closes (λ j. refl), t)
