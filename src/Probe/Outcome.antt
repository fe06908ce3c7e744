-- ===== src/Probe/Outcome.antt =====
-- When `Check` of probe/startup.go passes.
use mathlib.Core.List.{Perm, Permᴰ}
use mathlib.Core.Logic.{∥∥₁_elim}
use go_infra.Prelude.{
  ◌≤◌, ◌<◌, Bool, true, false, Option, none, some, List, [], ◌∷◌, ◌++◌, ◌≡◌, ◌↔◌, refl, sym, ap,
  ◌∙◌, arith, map, All,
}
use go_infra.Prelude.Text.{Text}
use go_infra.App.Runtime.{StartupProbe}
use go_infra.Probe.{
  Failure, Answer, invalid, failed, status, hostname, resolve_host, answered, check_http, checks,
  check,
}

passes : List (Option Failure) → Bool
passes [] = true
passes (none ∷ xs) = passes xs
passes (some x ∷ xs) = false

passes-swap :
    (a b : Option Failure) (l : List (Option Failure)) → passes (a ∷ b ∷ l) ≡ passes (b ∷ a ∷ l)
unfolding passes
passes-swap none none l = refl
passes-swap none (some y) l = refl
passes-swap (some x) none l = refl
passes-swap (some x) (some y) l = refl

passes-same :
    (a : Option Failure) (k l : List (Option Failure))
    → passes k ≡ passes l
    → passes (a ∷ k) ≡ passes (a ∷ l)
unfolding passes
passes-same none k l h = h
passes-same (some x) k l h = refl

passes-permᴰ : {xs ys : List (Option Failure)} → Permᴰ xs ys → passes xs ≡ passes ys
passes-permᴰ Permᴰ.nil = refl
passes-permᴰ (Permᴰ.cons {a} {b} {l₁} {l₂} e p) =
    passes-same a l₁ l₂ (passes-permᴰ p) ∙ ap (λ x. passes (x ∷ l₂)) e
passes-permᴰ (Permᴰ.swap {a} {b} {a'} {b'} {l} e f) = cc (e, f, passes-swap a b l)
passes-permᴰ (Permᴰ.trans p q) = passes-permᴰ p ∙ passes-permᴰ q

passes-perm : (xs ys : List (Option Failure)) → Perm xs ys → passes xs ≡ passes ys
passes-perm xs ys p = ∥∥₁_elim p (hlevel) λ q. passes-permᴰ q

check-passes : (xs : List (Option Failure)) → (check xs ≡ none) ↔ (passes xs ≡ true)
unfolding check passes
check-passes [] = (λ h. refl, λ h. refl)
check-passes (none ∷ xs) = check-passes xs
check-passes (some x ∷ xs) = (λ h. cc, λ h. cc)

passes-append :
    (xs ys : List (Option Failure))
    → (passes (xs ++ ys) ≡ true) ↔ ((passes xs ≡ true) × (passes ys ≡ true))
unfolding passes
passes-append [] ys = (λ h. (refl, h), λ h. h.1)
passes-append (none ∷ xs) ys = passes-append xs ys
passes-append (some x ∷ xs) ys = (λ h. cc, λ h. cc h.0)

-- An answer with a status of success.
abbrev pub IsOk : Answer → Type 0
IsOk invalid = ⊥
IsOk failed = ⊥
IsOk (status n) = (200 ≤ n) × (n < 300)

passes-cons :
    (x : Option Failure) (xs : List (Option Failure))
    → (passes (x ∷ xs) ≡ true) ↔ ((x ≡ none) × (passes xs ≡ true))
unfolding passes
passes-cons none xs = (λ h. (refl, h), λ h. h.1)
passes-cons (some x) xs = (λ h. cc, λ h. cc h.0)

answered_iff : (url : Text) (a : Answer) → (answered (λ t. true) (λ t. a) url a ≡ none) ↔ IsOk a
unfolding answered
answered_iff url invalid = (λ h. cc, λ h. absurd h)
answered_iff url failed = (λ h. cc, λ h. absurd h)
answered_iff url (status n) = ground arith

module _ (resolves : Text → Bool) (request : Text → Answer) where
  -- Every host resolves, and every URL answers with success.
  pub IsHealthy : StartupProbe → Type 0
  IsHealthy p =
      All (λ uri. resolves (hostname uri) ≡ true) p.host_uris
      × All (λ url. IsOk (request url)) p.urls

  resolve_host_iff :
      (host : Text) → (resolve_host resolves request host ≡ none) ↔ (resolves host ≡ true)
  unfolding resolve_host
  resolve_host_iff host = ground arith

  check_http_iff : (url : Text) → (check_http resolves request url ≡ none) ↔ IsOk (request url)
  unfolding check_http
  check_http_iff url = answered_iff url (request url)

  passes-map :
      (f : Text → Option Failure) (P : Text → Type 0)
      → ((t : Text) → (f t ≡ none) ↔ P t)
      → (ts : List Text) → (passes (map f ts) ≡ true) ↔ All P ts
  unfolding passes
  passes-map f P same [] = (λ h. tt, λ h. refl)
  passes-map f P same (t ∷ ts) =
      let both = passes-cons (f t) (map f ts) in
      let rest = passes-map f P same ts in
      (
        λ h. let (now, later) = both.0 h in ((same t).0 now, rest.0 later),
        λ h. both.1 ((same t).1 h.0, rest.1 h.1),
      )

  passes-checks : (p : StartupProbe) → (passes (checks resolves request p) ≡ true) ↔ IsHealthy p
  unfolding checks IsHealthy
  passes-checks p =
      let hosts = map (λ uri. resolve_host resolves request (hostname uri)) p.host_uris in
      let urls = map (check_http resolves request) p.urls in
      let split = passes-append hosts urls in
      let first =
        passes-map (λ uri. resolve_host resolves request (hostname uri))
          (λ uri. resolves (hostname uri) ≡ true) (λ uri. resolve_host_iff (hostname uri))
          p.host_uris in
      let second =
        passes-map (check_http resolves request) (λ url. IsOk (request url)) check_http_iff
          p.urls in
      (
        λ h. let (a, b) = split.0 h in (first.0 a, second.0 b),
        λ h. split.1 (first.1 h.0, second.1 h.1),
      )

  -- In whatever order the goroutines end, the check passes exactly where every host resolves and
  -- every URL answers with a status from 200 to 299.
  pub check-IsHealthy :
      (p : StartupProbe) (arrived : List (Option Failure))
      → Perm arrived (checks resolves request p)
      → (check arrived ≡ none) ↔ IsHealthy p
  check-IsHealthy p arrived perm =
      let same = passes-perm arrived (checks resolves request p) perm in
      (
        λ h. (passes-checks p).0 (sym same ∙ (check-passes arrived).0 h),
        λ h. (check-passes arrived).1 (same ∙ (passes-checks p).1 h),
      )
