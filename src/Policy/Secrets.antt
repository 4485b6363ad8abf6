-- ===== src/Policy/Secrets.antt =====
-- The names of secrets in src/policy.rs.
use inference_io.Prelude.{ℕ, Bool, ◌||◌, List, [], ◌∷◌, map, ◌==◌, if◌then◌else◌}
use inference_io.Bytes.{Bytes, ascii, ends_with, member, any, to_ascii_lowercase}

abbrev pub always_secret_headers : List Bytes
always_secret_headers =
    ascii "authorization"
    ∷ ascii "authentication-info"
    ∷ ascii "proxy-authorization"
    ∷ ascii "proxy-authentication-info"
    ∷ ascii "cookie"
    ∷ ascii "set-cookie"
    ∷ ascii "location"
    ∷ ascii "content-location"
    ∷ ascii "link"
    ∷ ascii "refresh"
    ∷ ascii "x-api-key"
    ∷ ascii "x-goog-api-key"
    ∷ ascii "x-amz-security-token"
    ∷ ascii "x-auth-token"
    ∷ ascii "x-access-token"
    ∷ ascii "api-key"
    ∷ ascii "authentication"
    ∷ ascii "grpc-metadata-authorization"
    ∷ []

abbrev pub always_secret_json_keys : List Bytes
always_secret_json_keys =
    ascii "authorization"
    ∷ ascii "proxy_authorization"
    ∷ ascii "proxy-authorization"
    ∷ ascii "cookie"
    ∷ ascii "set_cookie"
    ∷ ascii "set-cookie"
    ∷ ascii "x_api_key"
    ∷ ascii "x-api-key"
    ∷ ascii "x_google_api_key"
    ∷ ascii "x_goog_api_key"
    ∷ ascii "x-goog-api-key"
    ∷ ascii "x_amz_security_token"
    ∷ ascii "x-amz-security-token"
    ∷ ascii "api_key"
    ∷ ascii "api-key"
    ∷ ascii "access_token"
    ∷ ascii "refresh_token"
    ∷ ascii "client_secret"
    ∷ ascii "password"
    ∷ []

abbrev secret_header_suffixes : List Bytes
secret_header_suffixes =
    ascii "-api-key"
    ∷ ascii "-auth-token"
    ∷ ascii "-access-token"
    ∷ ascii "-security-token"
    ∷ ascii "-client-secret"
    ∷ ascii "-credential"
    ∷ ascii "-password"
    ∷ ascii "-signature"
    ∷ []

abbrev secret_json_names : List Bytes
secret_json_names =
    ascii "token" ∷ ascii "secret" ∷ ascii "password" ∷ ascii "apikey" ∷ ascii "api_key" ∷ []

abbrev secret_json_suffixes : List Bytes
secret_json_suffixes =
    ascii "_access_token"
    ∷ ascii "_refresh_token"
    ∷ ascii "_security_token"
    ∷ ascii "_client_secret"
    ∷ ascii "_password"
    ∷ ascii "_api_key"
    ∷ ascii "apikey"
    ∷ []

unfoldable pub is_secret_header : Bytes → Bool
is_secret_header name =
    member name always_secret_headers
    || any (λ suffix. ends_with suffix name) secret_header_suffixes

-- `lowercase.replace('-', "_")`.
abbrev dash_to_underscore : ℕ → ℕ
dash_to_underscore c = if c == b'-' then b'_' else c

unfoldable pub is_secret_json_key : Bytes → Bool
is_secret_json_key key =
    let lowercase = to_ascii_lowercase key in
    let normalized = map dash_to_underscore lowercase in
    member lowercase always_secret_json_keys
    || (member normalized secret_json_names
        || any (λ suffix. ends_with suffix normalized) secret_json_suffixes)
