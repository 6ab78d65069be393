-- ===== src/Examples/Headers.antt =====
-- A header map as a function, and a request with a key.
use muka_ai_trim.Common.{
  ℕ, ◌≡◌, ◌≢◌, refl, true, false, Option, none, some, List, [], ◌∷◌, if◌then◌else◌, bytes_eq,
  bytes_eq_iff, bytes_eq_refl, Result, ok, err, Bool-cases, inl, inr,
}
use muka_ai_trim.Digest.{codes}
use muka_ai_trim.Message.{classify, trim_slashes, before_query, ends_with}
use muka_ai_trim.Resolve.{contains}
use muka_ai_trim.Upstream.{
  HeaderMap, Pairs, request_headers, put_credentials, put_key, drop_request,
}
use muka_ai_trim.Upstream.Keys.{
  IsHeaderMap, IsKeyed, request_headers-IsKeyed, request_headers-drops,
}
use Prim.Native.String.{String}

abbrev Headers : Type 0
Headers = List ℕ → Option (List ℕ)

abbrev set_header : List ℕ → List ℕ → Headers → Headers
set_header k v m j = if bytes_eq k j then some v else m j

abbrev keep_header : List ℕ → Headers → Option (List ℕ) → List ℕ → Headers
keep_header k m none v = set_header k v m
keep_header k m (some w) v = m

abbrev header_map : HeaderMap Headers
header_map = record {
  empty = λ k. none;
  get = λ m k. m k;
  insert = set_header;
  remove = λ k m j. if bytes_eq k j then none else m j;
  or_insert = λ k v m. keep_header k m (m k) v;
  name_of = λ k. some k;
  value_of = λ v. some v;
}

unlike : (k j : List ℕ) → k ≢ j → bytes_eq k j ≡ false
unlike k j d = elim (Bool-cases (bytes_eq k j)) [
  | inl same ↦ absurd (d ((bytes_eq_iff k j).0 same))
  | inr other ↦ other
]

is_header_map : IsHeaderMap header_map
is_header_map = record {
  get-empty = λ k. refl;
  get-insert = λ k v m. rw (bytes_eq_refl k) refl;
  get-insert_other = λ k j v m d. rw (unlike k j d) refl;
  get-remove = λ k m. rw (bytes_eq_refl k) refl;
  get-remove_other = λ k j m d. rw (unlike k j d) refl;
  get-or_insert = λ k v m. kept k v m (m k) refl;
  get-or_insert_other = λ k j v m d. kept_other k j v m d (m k);
}
  where
    kept :
        (k v : List ℕ) (m : Headers) (o : Option (List ℕ)) → m k ≡ o → keep_header k m o v k ≢ none
    kept k v m none e = λ q. let set : set_header k v m k ≡ some v = rw (bytes_eq_refl k) refl in cc
    kept k v m (some w) e = λ q. cc

    kept_other :
        (k j v : List ℕ) (m : Headers) → k ≢ j → (o : Option (List ℕ)) → keep_header k m o v j ≡ m j
    kept_other k j v m d none = rw (unlike k j d) refl
    kept_other k j v m d (some w) = refl

abbrev key : List ℕ
key = codes "sk-1"

abbrev path : List ℕ
path = codes "/v1/messages"

abbrev sent : Pairs
sent = (codes "authorization", codes "Bearer no") ∷ (codes "te", codes "gzip") ∷ []

abbrev made_of : Result String Headers → Headers
made_of (ok m) = m
made_of (err e) = λ k. none

abbrev made : Headers
made = made_of (request_headers header_map (codes "api.test") (some key) path sent)

makes : request_headers header_map (codes "api.test") (some key) path sent ≡ ok made
unfolding request_headers put_credentials put_key classify trim_slashes before_query ends_with
    bytes_eq
makes = refl

request_headers-IsKeyed_example : IsKeyed header_map path key made
request_headers-IsKeyed_example =
    request_headers-IsKeyed header_map is_header_map (codes "api.test") key path sent made makes

dropped : contains drop_request (codes "te") ≡ true
unfolding contains bytes_eq
dropped = refl

request_headers-drops_example : made (codes "te") ≡ none
request_headers-drops_example =
    request_headers-drops header_map is_header_map (codes "api.test") (some key) path (codes "te")
      sent made ((λ x e. cc), ((λ x e. cc), tt)) makes dropped (λ e. cc)
