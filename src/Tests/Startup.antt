-- ===== src/Tests/Startup.antt =====
-- The probe of probe/ on a concrete host and a concrete URL.
use mathlib.Core.List.Perm
use go_infra.Prelude.{◌≡◌, ◌↔◌, false, none, [], ◌∷◌, some}
use go_infra.Prelude.Text.{codes, text_eq}
use go_infra.Prelude.Net.{has_colon, join_host_port}
use go_infra.App.Runtime.{StartupProbe}
use go_infra.Probe.{bad_status, status, hostname, checks, check}
use go_infra.Probe.Hostname.{hostname-join_host_port}
use go_infra.Probe.Outcome.{IsHealthy, check-IsHealthy}

hostname-join_host_port_example :
    (hostname (codes "[::1]:5672") ≡ codes "::1") ↔ (has_colon (codes "::1") ≡ false)
unfolding join_host_port
hostname-join_host_port_example = hostname-join_host_port (codes "::1") (codes "5672")

abbrev probe : StartupProbe
probe = record { host_uris = codes "h:1" ∷ []; urls = codes "u" ∷ [] }

check-IsHealthy_example :
    (check (some (bad_status 404 (codes "u")) ∷ none ∷ []) ≡ none)
    ↔ IsHealthy (λ h. text_eq h (codes "h")) (λ url. status 404) probe
unfolding checks hostname text_eq
check-IsHealthy_example =
    check-IsHealthy (λ h. text_eq h (codes "h")) (λ url. status 404) probe
      (some (bad_status 404 (codes "u")) ∷ none ∷ [])
      (Perm.swap none (some (bad_status 404 (codes "u"))) [])
