-- ===== src/Upstream.antt =====
-- crates/muka-gateway/src/upstream.rs and the header filters of local.rs: what reaches the model
-- provider, and what comes back. Header names and values are bytes; hyper's header map, and its reading of
-- names and values, are parameters.
pub mod Keys
use muka_ai_trim.Common.{
  ℕ, ◌+◌, Bool, true, false, ◌&&◌, Option, none, some, List, [], ◌∷◌, ◌++◌, leb, if◌then◌else◌,
  bytes_eq, Result, ok, err,
}
use muka_ai_trim.Digest.{codes}
use muka_ai_trim.Message.{Kind, chat_completions, messages, RequestHead, classify}
use muka_ai_trim.Resolve.{contains}
use Prim.Native.String.{String}

abbrev pub names : List String → List (List ℕ)
names [] = []
names (s ∷ ss) = codes s ∷ names ss

abbrev pub drop_request : List (List ℕ)
drop_request = names (
    "connection" ∷ "keep-alive" ∷ "proxy-authenticate" ∷ "proxy-authorization" ∷ "te" ∷ "trailer"
    ∷ "transfer-encoding" ∷ "upgrade" ∷ "content-length" ∷ "host" ∷ "expect" ∷ [])

abbrev pub drop_response : List (List ℕ)
drop_response = names ("connection" ∷ "keep-alive" ∷ "transfer-encoding" ∷ "content-length" ∷ [])

-- `to_ascii_lowercase`.
unfoldable pub lower : List ℕ → List ℕ
lower [] = []
lower (c ∷ cs) = (if leb 65 c && leb c 90 then c + 32 else c) ∷ lower cs

abbrev pub Pairs : Type 0
Pairs = List (List ℕ × List ℕ)

-- The headers of the agent's request that `handle` sends on.
unfoldable pub sent_headers : Pairs → Pairs
sent_headers [] = []
sent_headers ((k, v) ∷ hs) =
    let others = sent_headers hs in
    if contains drop_request (lower k) then others else (lower k, v) ∷ others

-- The headers of the provider's response that `send` passes back.
unfoldable pub response_headers : Pairs → Pairs
response_headers [] = []
response_headers ((k, v) ∷ hs) =
    let others = response_headers hs in
    if contains drop_response (lower k) then others else (lower k, v) ∷ others

-- hyper's header map.
pub record HeaderMap (M : Type 0) : Type 0 where
  pub empty : M
  pub get : M → List ℕ → Option (List ℕ)
  pub insert : List ℕ → List ℕ → M → M
  pub remove : List ℕ → M → M
  pub or_insert : List ℕ → List ℕ → M → M
  pub name_of : List ℕ → Option (List ℕ)
  pub value_of : List ℕ → Option (List ℕ)

abbrev pub host : List ℕ
host = codes "host"

abbrev pub authorization : List ℕ
authorization = codes "authorization"

abbrev pub api_key : List ℕ
api_key = codes "x-api-key"

abbrev pub version : List ℕ
version = codes "anthropic-version"

abbrev pub is_messages : Kind → Bool
is_messages messages = true
is_messages k = false

module _ {M : Type 0} (h : HeaderMap M) where
  unfoldable pub forward_header : List ℕ → List ℕ → M → M
  forward_header k v m = if contains drop_request k then m else elim (h.name_of k) [
    | none ↦ m
    | some name ↦ elim (h.value_of v) [ none ↦ m | some value ↦ h.insert name value m ]
  ]

  unfoldable pub forward_headers : Pairs → M → M
  forward_headers [] m = m
  forward_headers ((k, v) ∷ hs) m = forward_headers hs (forward_header k v m)

  unfoldable pub put_host : List ℕ → M → M
  put_host name m =
      h.insert host (elim (h.value_of name) [ none ↦ codes "localhost" | some v ↦ v ]) m

  -- The error is `BadPayload` with its text.
  unfoldable pub put_key : Bool → List ℕ → M → Result String M
  put_key true key m = elim (h.value_of key) [
    | none ↦ err "api key contains invalid characters"
    | some v ↦
        ok
          (h.or_insert version (codes "2023-06-01") (h.insert api_key v (h.remove authorization m)))
  ]
  put_key false key m = elim (h.value_of (codes "Bearer " ++ key)) [
    | none ↦ err "api key contains invalid characters"
    | some v ↦ ok (h.insert authorization v m)
  ]

  unfoldable pub put_credentials : Option (List ℕ) → List ℕ → M → Result String M
  put_credentials none path m = ok m
  put_credentials (some key) path m = put_key (is_messages (classify path)) key m

  -- The headers of the request that `send` makes of a rebuilt one.
  unfoldable pub request_headers : List ℕ → Option (List ℕ) → List ℕ → Pairs → Result String M
  request_headers name key path sent =
      put_credentials key path (put_host name (forward_headers sent h.empty))
