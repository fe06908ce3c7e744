-- ===== src/Web/Runtime.antt =====
-- `Runtime` of web/runtime.go. The HTTP server of the library is a parameter: `listen_and_serve` is
-- what the goroutine of `Start` calls, and its error, which nobody reads.
use go_infra.Prelude.{Option, none, some, [], ◌≡◌, arith, if◌then◌else◌}
use go_infra.Prelude.Text.{Text, codes, is_empty}

-- `server` is the address of the server that was made.
pub record WebRuntime : Type 0 where
  pub server : Option Text
  pub addr : Text

pub record HttpLib (W : Type 0) : Type 0 where
  pub listen_and_serve : Text → W → W × Option Text
  pub shutdown_server : Text → W → W × Option Text

abbrev pub new_web_runtime : WebRuntime
new_web_runtime = record { server = none; addr = [] }

abbrev pub web_listen : Text → WebRuntime → WebRuntime
web_listen addr r = record r { addr = addr }

module _ {W : Type 0} (lib : HttpLib W) where
  unfoldable pub web_start : WebRuntime → W → WebRuntime × W × Option Text
  web_start r w = elim r.server [
    | some addr ↦ (r, w, none)
    | none ↦
        let addr = if is_empty r.addr then codes ":8080" else r.addr in
        (record { server = some addr; addr = addr }, (lib.listen_and_serve addr w).0, none)
  ]

  unfoldable pub web_shutdown : WebRuntime → W → W × Option Text
  web_shutdown r w = elim r.server [ none ↦ (w, none) | some addr ↦ lib.shutdown_server addr w ]

  -- A runtime that was started is not started again, not even after its shutdown: the second start
  -- reports success and calls the library no more.
  pub web_start-again :
      (r : WebRuntime) (w w2 : W) → let r' = (web_start r w).0 in web_start r' w2 ≡ (r', w2, none)
  unfolding web_start
  web_start-again r w w2 = ground arith
