-- ===== src/Probe/Hostname.antt =====
-- The name that probe/startup.go resolves for the address of a host and a port.
use go_infra.Prelude.{false, [], ◌∷◌, ◌++◌, ◌≡◌, ◌↔◌, refl, sym, ap, ◌∙◌, arith}
use go_infra.Prelude.Text.{Text}
use go_infra.Prelude.Net.{has_colon, join_host_port}
use go_infra.Probe.{hostname}

hostname_colon : (t : Text) → has_colon (hostname t) ≡ false
unfolding hostname
hostname_colon [] = refl
hostname_colon (c ∷ cs) = ground (arith, hostname_colon cs)

hostname-append :
    (host rest : Text) → has_colon host ≡ false → hostname (host ++ b':' ∷ rest) ≡ host
unfolding hostname
hostname-append [] rest h = refl
hostname-append (c ∷ cs) rest h = ground (arith, hostname-append cs rest)

-- The probe resolves the host of an address that `net.JoinHostPort` wrote exactly where the host
-- has no colon: of an IPv6 address it resolves something else.
pub hostname-join_host_port :
    (host port : Text) → (hostname (join_host_port host port) ≡ host) ↔ (has_colon host ≡ false)
unfolding join_host_port
hostname-join_host_port host port = (
  λ e. ap has_colon (sym e) ∙ hostname_colon (join_host_port host port),
  λ h. rw (h, join_host_port) (hostname-append host port h),
)
