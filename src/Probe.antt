-- ===== src/Probe.antt =====
-- probe/startup.go: the name that is resolved for an address, and the check of an address and a URL.
-- The resolver and the HTTP client are parameters; each answers for one call.
pub mod Hostname
pub mod Outcome
use go_infra.Prelude.{
  ℕ, ◌==◌, Bool, true, false, ◌||◌, Option, none, some, List, [], ◌∷◌, ◌++◌, map, ltb, leb,
  if◌then◌else◌,
}
use go_infra.Prelude.Text.{Text}
use go_infra.App.Runtime.{StartupProbe}

-- The text before the first colon.
unfoldable pub hostname : Text → Text
hostname [] = []
hostname (c ∷ cs) = let rest = hostname cs in if c == b':' then [] else c ∷ rest

pub data Failure : Type 0 where
  unresolved : Text → Failure
  invalid_url request_failed : Text → Failure
  bad_status : ℕ → Text → Failure

-- What a request ends with.
pub data Answer : Type 0 where
  invalid failed : Answer
  status : ℕ → Answer

abbrev pub add_host_uri : Text → StartupProbe → StartupProbe
add_host_uri uri p = record p { host_uris = p.host_uris ++ uri ∷ [] }

abbrev pub add_url : Text → StartupProbe → StartupProbe
add_url url p = record p { urls = p.urls ++ url ∷ [] }

module _ (resolves : Text → Bool) (request : Text → Answer) where
  unfoldable pub resolve_host : Text → Option Failure
  resolve_host host = if resolves host then none else some (unresolved host)

  answered : Text → Answer → Option Failure
  answered url invalid = some (invalid_url url)
  answered url failed = some (request_failed url)
  answered url (status n) = if ltb n 200 || leb 300 n then some (bad_status n url) else none

  unfoldable pub check_http : Text → Option Failure
  unfolding answered
  check_http url = answered url (request url)

  -- What the goroutines of `Check` find, one for each address and each URL.
  unfoldable pub checks : StartupProbe → List (Option Failure)
  unfolding resolve_host check_http
  checks p = map (λ uri. resolve_host (hostname uri)) p.host_uris ++ map check_http p.urls

-- The result of `Check`: the first failure in the order in which the goroutines send them.
unfoldable pub check : List (Option Failure) → Option Failure
check [] = none
check (none ∷ arrived) = check arrived
check (some failure ∷ arrived) = some failure
