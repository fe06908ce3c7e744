-- ===== src/Tests/WebRequest.antt =====
-- A request of internal/web/ whose handler panics.
use go_infra.Prelude.{◌≡◌, false, none, some, [], ◌∷◌, if◌then◌else◌}
use go_infra.Prelude.Text.{codes, is_empty, text_eq}
use go_infra.Config.Strings.{trim_space}
use go_infra.Web.{Request, internal_error, parse_request_metadata, hex_encode, serve}
use go_infra.Web.Metadata.{serve-identified}

abbrev request : Request
request = record {
  method = codes "GET";
  path = codes "/p";
  header = λ name. if text_eq name (codes "X-Trace") then codes " True" else [];
}

serve-identified_example :
    (is_empty (codes "0aff") ≡ false)
    × (codes "0aff" ≡ (
        if is_empty (trim_space (request.header (codes "X-Request-Id")))
        then hex_encode (10 ∷ 255 ∷ [])
        else trim_space (request.header (codes "X-Request-Id"))))
    × ((serve (some (10 ∷ 255 ∷ [])) (λ ctx. none) request [] [] []).request_id_header
        ≡ some (codes "0aff"))
    × ((serve (some (10 ∷ 255 ∷ [])) (λ ctx. none) request [] [] []).reply
        ≡ internal_error (codes "0aff"))
unfolding parse_request_metadata hex_encode trim_space text_eq
serve-identified_example = serve-identified 10 (255 ∷ []) (λ ctx. none) request [] [] []
