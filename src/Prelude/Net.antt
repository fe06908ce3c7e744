-- ===== src/Prelude/Net.antt =====
-- Addresses of a host and a port, as package net writes them.
use mathlib.Core.Bool.{Bool, true, false}
use mathlib.Core.List.{[], ◌∷◌, ◌++◌}
use go_infra.Prelude.Tests.{◌==◌, if◌then◌else◌}
use go_infra.Prelude.Text.{Text}

abbrev pub has_colon : Text → Bool
has_colon [] = false
has_colon (c ∷ cs) = let rest = has_colon cs in if c == b':' then true else rest

-- `net.JoinHostPort`
unfoldable pub join_host_port : Text → Text → Text
join_host_port host port =
    if has_colon host then b'[' ∷ host ++ (b']' ∷ b':' ∷ port) else host ++ (b':' ∷ port)
