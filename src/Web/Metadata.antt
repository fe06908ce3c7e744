-- ===== src/Web/Metadata.antt =====
-- What handlers and clients learn of the metadata of a request of internal/web/.
use go_infra.Prelude.{ℕ, false, Option, none, some, ◌∷◌, ◌≡◌, refl, ap, arith, if◌then◌else◌}
use go_infra.Prelude.Text.{Text, codes, text_eq, is_empty}
use go_infra.Config.Strings.{trim_space}
use go_infra.Web.{
  Context, value, RequestMetadata, with_request_metadata, string_value, request_id, correlation_id,
  trace_enabled, client_ip, action, Request, hex_encode, new_request_id, parse_request_metadata,
  Reply, internal_error, recovery, serve,
}

-- Each part of the metadata is read back from the context that it was put into, and values under
-- other keys are as they were.
pub with_request_metadata_lem :
    (m : RequestMetadata) (ctx : Context)
    → let ctx' = with_request_metadata m ctx in
      (request_id ctx' ≡ m.request_id)
      × (correlation_id ctx' ≡ m.correlation_id)
      × (trace_enabled ctx' ≡ m.trace)
      × (client_ip ctx' ≡ m.client_ip)
      × (action ctx' ≡ m.action)
unfolding with_request_metadata request_id correlation_id trace_enabled client_ip action
    string_value value text_eq
with_request_metadata_lem m ctx = (refl, refl, refl, refl, refl)

new_request_id_lem : (b : ℕ) (bs : Text) → is_empty (new_request_id (some (b ∷ bs))) ≡ false
unfolding hex_encode
new_request_id_lem b bs = refl

-- What a client is told: the answer of a handler, or the error with an identifier.
abbrev pub told : Text → Option Reply → Reply
told id none = internal_error id
told id (some r) = r

recovery-told :
    (m : RequestMetadata) (ctx : Context) (o : Option Reply)
    → recovery (with_request_metadata m ctx) o ≡ told m.request_id o
unfolding recovery
recovery-told m ctx none = ap internal_error (with_request_metadata_lem m ctx).0
recovery-told m ctx (some r) = refl

-- Where the random source gives bytes, every request has an identifier that is not empty: that of its
-- header X-Request-Id without blanks around it, or, where that is empty, the bytes in hexadecimal. The response bears it, and where the handler panics
-- before it has answered, the client gets an error with it.
pub serve-identified :
    (b : ℕ) (bs : Text) (handler : Context → Option Reply) (r : Request) (full_path ip : Text)
    (ctx : Context)
    → let m = parse_request_metadata (some (b ∷ bs)) r full_path ip in
      (is_empty m.request_id ≡ false)
      × (m.request_id ≡ (
          if is_empty (trim_space (r.header (codes "X-Request-Id")))
          then hex_encode (b ∷ bs)
          else trim_space (r.header (codes "X-Request-Id"))))
      × ((serve (some (b ∷ bs)) handler r full_path ip ctx).request_id_header ≡ some m.request_id)
      × ((serve (some (b ∷ bs)) handler r full_path ip ctx).reply
          ≡ told m.request_id (handler (with_request_metadata m ctx)))
unfolding serve parse_request_metadata
serve-identified b bs handler r full_path ip ctx =
    let m = parse_request_metadata (some (b ∷ bs)) r full_path ip in
    let ctx' = with_request_metadata m ctx in
    let there : is_empty m.request_id ≡ false = ground (arith, new_request_id_lem b bs) in
    (there, refl, rw there refl, recovery-told m ctx (handler ctx'))
