-- ===== src/Grpc/Server.antt =====
-- `Server` of internal/grpc/server.go. The library and the network are a parameter.
use go_infra.Prelude.{ℕ, Bool, true, false, Option, none, some, [], ◌≡◌, refl, if◌then◌else◌}
use go_infra.Prelude.Text.{Text, codes, is_empty}

pub record Server : Type 0 where
  pub listen : Text
  pub listener : Option ℕ
  pub started : Bool

pub data Listening : Type 0 where
  listening : ℕ → Listening
  no_listener : Text → Listening

pub record Host (W : Type 0) : Type 0 where
  pub net_listen : Text → W → W × Listening
  pub health_resume : W → W
  pub health_shutdown : W → W
  pub serve : ℕ → W → W
  pub graceful_stop : W → W
  pub force_stop : W → W

abbrev pub new_server : Server
new_server = record { listen = []; listener = none; started = false }

abbrev pub set_listen : Text → Server → Server
set_listen listen s = record s { listen = listen }

-- How the `select` of `Shutdown` ends: the server has stopped, or its context is done.
pub data Stopped : Type 0 where
  gracefully : Stopped
  context_done : Text → Stopped

module _ {W : Type 0} (lib : Host W) where
  serve_on : Server → W × Listening → Server × W × Option Text
  serve_on s (w, no_listener why) = (s, w, some why)
  serve_on s (w, listening l) =
      (record s { listener = some l; started = true }, lib.serve l (lib.health_resume w), none)

  unfoldable pub server_start : Server → W → Server × W × Option Text
  unfolding serve_on
  server_start s w =
      if s.started
      then (s, w, none)
      else if is_empty s.listen
      then (s, w, some (codes "grpc listen is required"))
      else serve_on s (lib.net_listen s.listen w)

  shut : Stopped → Server → W → Server × W × Option Text
  shut gracefully s w = (record s { listener = none; started = false }, lib.graceful_stop w, none)
  shut (context_done why) s w = (s, lib.force_stop w, some why)

  unfoldable pub server_shutdown : Stopped → Server → W → Server × W × Option Text
  unfolding shut
  server_shutdown how s w = if s.started then shut how s (lib.health_shutdown w) else (s, w, none)

  -- A server whose shutdown was cut off by its context reports a start that it does not make.
  pub start_after_cut :
      (s : Server) (w w2 : W) (why : Text)
      → s.started ≡ true
      → let s' = (server_shutdown (context_done why) s w).0 in server_start s' w2 ≡ (s', w2, none)
  unfolding server_start server_shutdown
  start_after_cut s w w2 why h = rw h refl
