-- ===== src/Web.antt =====
-- internal/web/: the metadata of a request in its context, and the two middlewares that
-- web/runtime.go puts before every handler. Text is bytes; letters change their case as in ASCII.
pub mod Metadata
pub mod Runtime
use go_infra.Prelude.{
  ℕ, ◌+◌, ◌-◌, ◌/◌, ◌%◌, Bool, true, false, ◌&&◌, Option, none, some, List, [], ◌∷◌, ◌++◌, map, ltb,
  leb, if◌then◌else◌,
}
use go_infra.Prelude.Text.{Text, codes, text_eq, is_empty}
use go_infra.Config.Strings.{trim_space}

-- What a context holds under the keys of the package, the newest value first.
pub data Value : Type 0 where
  text : Text → Value
  flag : Bool → Value

abbrev pub Context : Type 0
Context = List (Text × Value)

abbrev pub with_value : Text → Value → Context → Context
with_value key v ctx = (key, v) ∷ ctx

unfoldable pub value : Text → Context → Option Value
value key [] = none
value key ((k, v) ∷ ctx) = if text_eq k key then some v else value key ctx

pub record RequestMetadata : Type 0 where
  pub request_id : Text
  pub correlation_id : Text
  pub trace : Bool
  pub client_ip : Text
  pub action : Text

unfoldable pub with_request_metadata : RequestMetadata → Context → Context
with_request_metadata m ctx = with_value (codes "action") (text m.action) (
    with_value (codes "clientIP") (text m.client_ip) (
      with_value (codes "trace") (flag m.trace) (
        with_value (codes "correlationID") (text m.correlation_id)
          (with_value (codes "requestID") (text m.request_id) ctx))))

abbrev text_of : Option Value → Text
text_of (some (text t)) = t
text_of _ = []

abbrev flag_of : Option Value → Bool
flag_of (some (flag b)) = b
flag_of _ = false

unfoldable pub string_value : Text → Context → Text
string_value key ctx = text_of (value key ctx)

unfoldable pub request_id : Context → Text
request_id ctx = string_value (codes "requestID") ctx

unfoldable pub correlation_id : Context → Text
correlation_id ctx = string_value (codes "correlationID") ctx

unfoldable pub trace_enabled : Context → Bool
trace_enabled ctx = flag_of (value (codes "trace") ctx)

unfoldable pub client_ip : Context → Text
client_ip ctx = string_value (codes "clientIP") ctx

unfoldable pub action : Context → Text
action ctx = string_value (codes "action") ctx

-- A request, with the lookup of a header by its name.
pub record Request : Type 0 where
  pub method : Text
  pub path : Text
  pub header : Text → Text

abbrev pub lower : ℕ → ℕ
lower c = if leb b'A' c && leb c b'Z' then c + 32 else c

unfoldable pub to_lower : Text → Text
to_lower t = map lower t

unfoldable pub parse_action : Text → Text → Text → Text
parse_action method full_path request_path =
    codes "http:"
    ++ (to_lower method ++ (b':' ∷ (if is_empty full_path then request_path else full_path)))

-- `hex.EncodeToString`
abbrev hex_digit : ℕ → ℕ
hex_digit d = if ltb d 10 then b'0' + d else b'a' + (d - 10)

unfoldable pub hex_encode : Text → Text
hex_encode [] = []
hex_encode (b ∷ bs) = hex_digit (b / 16) ∷ hex_digit (b % 16) ∷ hex_encode bs

-- `newRequestID`, of the bytes that the random source gives, if it does.
abbrev pub new_request_id : Option Text → Text
new_request_id none = []
new_request_id (some buf) = hex_encode buf

unfoldable pub parse_request_metadata : Option Text → Request → Text → Text → RequestMetadata
parse_request_metadata random r full_path client_ip =
    let id = trim_space (r.header (codes "X-Request-Id")) in
    record {
      request_id = if is_empty id then new_request_id random else id;
      correlation_id = trim_space (r.header (codes "X-Correlation-Id"));
      trace = text_eq (to_lower (trim_space (r.header (codes "X-Trace")))) (codes "true");
      client_ip = client_ip;
      action = parse_action r.method full_path r.path;
    }

-- What a handler answers, and what the recovery answers for it.
pub data Reply : Type 0 where
  replied : ℕ → Text → Reply
  internal_error : Text → Reply

pub record Response : Type 0 where
  pub request_id_header : Option Text
  pub reply : Reply

-- `RecoveryMiddleware`, for a handler that panics before it has answered (`none`).
unfoldable pub recovery : Context → Option Reply → Reply
recovery ctx (some r) = r
recovery ctx none = internal_error (request_id ctx)

-- `RequestContextMiddleware` around `RecoveryMiddleware` around a handler.
unfoldable pub serve :
    Option Text → (Context → Option Reply) → Request → Text → Text → Context → Response
serve random handler r full_path ip ctx =
    let m = parse_request_metadata random r full_path ip in
    let ctx' = with_request_metadata m ctx in
    record {
      request_id_header = if is_empty m.request_id then none else some m.request_id;
      reply = recovery ctx' (handler ctx');
    }
