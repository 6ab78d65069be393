-- ===== src/Message.antt =====
-- crates/muka-proto/src/msg.rs: request metadata, the endpoint families, and the binary messages.
-- The JSON text of the control messages is serde's and is not modelled.
pub mod Needs
use muka_ai_trim.Common.{
  ℕ, zero, suc, Bool, true, false, ◌||◌, List, [], ◌∷◌, ◌++◌, ◌==◌, leb, if◌then◌else◌, length,
  bytes_eq, Result, Option, none, some,
}
use muka_ai_trim.Digest.{Digest, digest_len, codes}
use muka_ai_trim.Varint.{Reader, new, write_uvarint, take_bytes, u64_as}
use muka_ai_trim.Codec.Decoding.{Error, too_large, Decode, ◌>>=◌, ◌>>◌, pure, lift, check, run}
use Prim.Native.String.{String}

abbrev pub protocol_version : ℕ
protocol_version = 2

pub data Kind : Type 0 where
  other chat_completions completions responses messages embeddings models : Kind

unfoldable pub dedupable : Kind → Bool
dedupable chat_completions = true
dedupable completions = true
dedupable responses = true
dedupable messages = true
dedupable embeddings = true
dedupable other = false
dedupable models = false

-- Text is a list of code points here. `path.split('?').next()`.
unfoldable pub before_query : List ℕ → List ℕ
before_query [] = []
before_query (c ∷ cs) = let more = c ∷ before_query cs in if c == b'?' then [] else more

-- `trim_end_matches('/')`
unfoldable pub trim_slashes : List ℕ → List ℕ
trim_slashes [] = []
trim_slashes (c ∷ cs) = elim (trim_slashes cs) [
  | [] ↦ if c == b'/' then [] else c ∷ []
  | d ∷ ds ↦ c ∷ d ∷ ds
]

unfoldable pub ends_with : List ℕ → List ℕ → Bool
ends_with [] suffix = bytes_eq [] suffix
ends_with (c ∷ cs) suffix = bytes_eq (c ∷ cs) suffix || ends_with cs suffix

unfoldable pub classify : List ℕ → Kind
classify path =
    let p : List ℕ = trim_slashes (before_query path) in
    if ends_with p (codes "/chat/completions")
    then chat_completions
    else if ends_with p (codes "/completions")
    then completions
    else if ends_with p (codes "/responses")
    then responses
    else if ends_with p (codes "/messages") || ends_with p (codes "/count_tokens")
    then messages
    else if ends_with p (codes "/embeddings")
    then embeddings
    else if ends_with p (codes "/models")
    then models
    else other

pub record RequestHead : Type 0 where
  pub method : String
  pub path : List ℕ
  pub headers : List (String × String)
  pub body_len : ℕ
  pub body_digest : Digest
  pub kind : Kind
  pub split : Bool

unfoldable pub append_digests : List ℕ → List Digest → List ℕ
append_digests out [] = out
append_digests out (d ∷ ds) = append_digests (out ++ d) ds

unfoldable pub encode_needs : List Digest → List ℕ
encode_needs digests = append_digests (write_uvarint [] (length digests)) digests

unfoldable pub take_digests : ℕ → List Digest → Decode (List Digest)
take_digests zero out = pure out
take_digests (suc n) out = do d ← lift (take_bytes digest_len); take_digests n (out ++ (d ∷ []))

unfoldable pub needs_body : ℕ → Decode (List Digest)
needs_body limit = do
  n ← lift (u64_as "need count")
  check (leb n limit) (too_large n)
  take_digests n []

unfoldable pub decode_needs : List ℕ → ℕ → Result Error (List Digest)
decode_needs raw limit = run (needs_body limit) (new raw)
