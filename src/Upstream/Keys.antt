-- ===== src/Upstream/Keys.antt =====
-- Which credentials and headers reach the model provider (crates/muka-gateway/src/upstream.rs).
use muka_ai_trim.Common.{
  ℕ, ◌≡◌, ◌≢◌, refl, sym, ◌∙◌, subst, Bool, true, false, Option, none, some, List, [], ◌∷◌, ◌++◌,
  if◌then◌else◌, bytes_eq, Result, ok, err, All, ok-injective,
}
use muka_ai_trim.Digest.{codes}
use muka_ai_trim.Message.{classify}
use muka_ai_trim.Resolve.{contains}
use muka_ai_trim.Upstream.{
  drop_request, Pairs, HeaderMap, host, authorization, api_key, version, is_messages,
  forward_header, forward_headers, put_host, put_key, put_credentials, request_headers,
}
use Prim.Native.String.{String}

kept_authorization : contains drop_request authorization ≡ false
unfolding contains bytes_eq
kept_authorization = refl

kept_api_key : contains drop_request api_key ≡ false
unfolding contains bytes_eq
kept_api_key = refl

kept_version : contains drop_request version ≡ false
unfolding contains bytes_eq
kept_version = refl

module _ {M : Type 0} (h : HeaderMap M) where
  -- What the header map documents.
  pub record IsHeaderMap : Type 0 where
    pub get-empty : (k : List ℕ) → h.get h.empty k ≡ none
    pub get-insert : (k v : List ℕ) (m : M) → h.get (h.insert k v m) k ≡ some v
    pub get-insert_other : (k j v : List ℕ) (m : M) → k ≢ j → h.get (h.insert k v m) j ≡ h.get m j
    pub get-remove : (k : List ℕ) (m : M) → h.get (h.remove k m) k ≡ none
    pub get-remove_other : (k j : List ℕ) (m : M) → k ≢ j → h.get (h.remove k m) j ≡ h.get m j
    pub get-or_insert : (k v : List ℕ) (m : M) → h.get (h.or_insert k v m) k ≢ none
    pub get-or_insert_other :
        (k j v : List ℕ) (m : M) → k ≢ j → h.get (h.or_insert k v m) j ≡ h.get m j

  -- The provider's credentials: the key in the header of its family, and for the Messages API no
  -- other authorization.
  abbrev pub IsKeyed : List ℕ → List ℕ → M → Type 0
  IsKeyed path key m = elim (is_messages (classify path)) [
    | true ↦
        (h.get m authorization ≡ none)
        × (h.get m api_key ≡ h.value_of key)
        × (h.get m version ≢ none)
    | false ↦ h.get m authorization ≡ h.value_of (codes "Bearer " ++ key)
  ]

  module _ (laws : IsHeaderMap) where
    put_key-messages :
        (key : List ℕ) (m₀ m : M)
        → put_key h true key m₀ ≡ ok m
        → (h.get m authorization ≡ none)
          × (h.get m api_key ≡ h.value_of key)
          × (h.get m version ≢ none)
    unfolding put_key
    put_key-messages key m₀ m e = at_value (h.value_of key) e
      where
        keyed : List ℕ → M
        keyed v =
            h.or_insert version (codes "2023-06-01")
              (h.insert api_key v (h.remove authorization m₀))

        at_value :
            (o : Option (List ℕ))
            → ◌≡◌ {A = Result String M}
                (elim o [
                  | none ↦ err "api key contains invalid characters"
                  | some v ↦ ok (keyed v)
                ])
                (ok m)
            → (h.get m authorization ≡ none) × (h.get m api_key ≡ o) × (h.get m version ≢ none)
        at_value none q = cc
        at_value (some v) q =
            let same : keyed v ≡ m = cc in
            subst
              (λ (r : M).
                (h.get r authorization ≡ none)
                × (h.get r api_key ≡ some v)
                × (h.get r version ≢ none))
              same
              (
                laws.get-or_insert_other version authorization (codes "2023-06-01") _ (λ d. cc)
                    ∙ laws.get-insert_other api_key authorization v _ (λ d. cc)
                    ∙ laws.get-remove authorization m₀,
                laws.get-or_insert_other version api_key (codes "2023-06-01") _ (λ d. cc)
                    ∙ laws.get-insert api_key v _,
                laws.get-or_insert version (codes "2023-06-01") _,
              )

    put_key-other :
        (key : List ℕ) (m₀ m : M)
        → put_key h false key m₀ ≡ ok m
        → h.get m authorization ≡ h.value_of (codes "Bearer " ++ key)
    unfolding put_key
    put_key-other key m₀ m e = at_value (h.value_of (codes "Bearer " ++ key)) e
      where
        at_value :
            (o : Option (List ℕ))
            → ◌≡◌ {A = Result String M}
                (elim o [
                  | none ↦ err "api key contains invalid characters"
                  | some v ↦ ok (h.insert authorization v m₀)
                ])
                (ok m)
            → h.get m authorization ≡ o
        at_value none q = cc
        at_value (some v) q =
            let same : h.insert authorization v m₀ ≡ m = cc in
            subst (λ (r : M). h.get r authorization ≡ some v) same
              (laws.get-insert authorization v m₀)

    -- Whatever credentials the agent sent, a request made with a configured key carries that key in
    -- the header of its family, as the header map reads it, and where that is the Messages API
    -- carries no `Authorization` and some API version.
    pub request_headers-IsKeyed :
        (name key path : List ℕ) (sent : Pairs) (m : M)
        → request_headers h name (some key) path sent ≡ ok m
        → IsKeyed path key m
    unfolding request_headers put_credentials
    request_headers-IsKeyed name key path sent m e =
        at_family (is_messages (classify path)) (put_host h name (forward_headers h sent h.empty)) e
      where
        family : Bool → Type 0
        family t = elim t [
          | true ↦
              (h.get m authorization ≡ none)
              × (h.get m api_key ≡ h.value_of key)
              × (h.get m version ≢ none)
          | false ↦ h.get m authorization ≡ h.value_of (codes "Bearer " ++ key)
        ]

        at_family : (t : Bool) (m₀ : M) → put_key h t key m₀ ≡ ok m → family t
        at_family true m₀ q = put_key-messages key m₀ m q
        at_family false m₀ q = put_key-other key m₀ m q

    -- A name that the header map reads as itself.
    abbrev pub IsCanonical : List ℕ × List ℕ → Type 0
    IsCanonical p = (x : List ℕ) → h.name_of p.0 ≡ some x → x ≡ p.0

    forward_header-drops :
        (k v n : List ℕ) (m : M)
        → IsCanonical (k, v)
        → contains drop_request n ≡ true
        → h.get m n ≡ none
        → h.get (forward_header h k v m) n ≡ none
    unfolding forward_header
    forward_header-drops k v n m c d e =
        at_drop (contains drop_request k) refl (h.name_of k) (λ x q. c x q)
      where
        at_value :
            (x : List ℕ) (o : Option (List ℕ))
            → x ≢ n
            → h.get (elim o [ none ↦ m | some y ↦ h.insert x y m ]) n ≡ none
        at_value x none differ = e
        at_value x (some y) differ = laws.get-insert_other x n y m differ ∙ e

        at_drop :
            (t : Bool)
            → contains drop_request k ≡ t
            → (o : Option (List ℕ)) → ((x : List ℕ) → o ≡ some x → x ≡ k)
            → h.get
                (if t then m else elim o [
                  | none ↦ m
                  | some x ↦ elim (h.value_of v) [ none ↦ m | some y ↦ h.insert x y m ]
                ])
                n
              ≡ none
        at_drop true q o f = e
        at_drop false q none f = e
        at_drop false q (some x) f = at_value x (h.value_of v) (λ s.
            let clash : contains drop_request n ≡ false =
              subst (λ y. contains drop_request y ≡ false) (sym (f x refl) ∙ s) q in
            cc)

    forward_headers-drops :
        (sent : Pairs) (n : List ℕ) (m : M)
        → All IsCanonical sent
        → contains drop_request n ≡ true
        → h.get m n ≡ none
        → h.get (forward_headers h sent m) n ≡ none
    unfolding forward_headers
    forward_headers-drops [] n m cs d e = e
    forward_headers-drops ((k, v) ∷ sent) n m (c, cs) d e =
        forward_headers-drops sent n (forward_header h k v m) cs d
          (forward_header-drops k v n m c d e)

    -- A key touches no header but its own.
    record IsUnkeyed (n : List ℕ) : Type 0 where
      no_authorization : authorization ≢ n
      no_api_key : api_key ≢ n
      no_version : version ≢ n

    put_key-get :
        (t : Bool) (key n : List ℕ) (m₀ m : M)
        → put_key h t key m₀ ≡ ok m
        → IsUnkeyed n
        → h.get m n ≡ h.get m₀ n
    unfolding put_key
    put_key-get true key n m₀ m e u = at_value (h.value_of key) e
      where
        keyed : List ℕ → M
        keyed v =
            h.or_insert version (codes "2023-06-01")
              (h.insert api_key v (h.remove authorization m₀))

        at_value :
            (o : Option (List ℕ))
            → ◌≡◌ {A = Result String M}
                (elim o [
                  | none ↦ err "api key contains invalid characters"
                  | some v ↦ ok (keyed v)
                ])
                (ok m)
            → h.get m n ≡ h.get m₀ n
        at_value none q = cc
        at_value (some v) q =
            let same : keyed v ≡ m = cc in
            subst (λ (r : M). h.get r n ≡ h.get m₀ n) same
              (laws.get-or_insert_other version n (codes "2023-06-01") _ u.no_version
                ∙ laws.get-insert_other api_key n v _ u.no_api_key
                ∙ laws.get-remove_other authorization n m₀ u.no_authorization)
    put_key-get false key n m₀ m e u = at_value (h.value_of (codes "Bearer " ++ key)) e
      where
        at_value :
            (o : Option (List ℕ))
            → ◌≡◌ {A = Result String M}
                (elim o [
                  | none ↦ err "api key contains invalid characters"
                  | some v ↦ ok (h.insert authorization v m₀)
                ])
                (ok m)
            → h.get m n ≡ h.get m₀ n
        at_value none q = cc
        at_value (some v) q =
            let same : h.insert authorization v m₀ ≡ m = cc in
            subst (λ (r : M). h.get r n ≡ h.get m₀ n) same
              (laws.get-insert_other authorization n v m₀ u.no_authorization)

    drop_request-IsUnkeyed : (n : List ℕ) → contains drop_request n ≡ true → IsUnkeyed n
    drop_request-IsUnkeyed n d = record {
      no_authorization = λ s. differs authorization s kept_authorization;
      no_api_key = λ s. differs api_key s kept_api_key;
      no_version = λ s. differs version s kept_version;
    }
      where
        differs : (k : List ℕ) → k ≡ n → contains drop_request k ≡ false → ⊥
        differs k s q =
            let clash : contains drop_request n ≡ false =
              subst (λ y. contains drop_request y ≡ false) s q in
            cc

    put_credentials-get :
        (key : Option (List ℕ)) (path n : List ℕ) (m₀ m : M)
        → put_credentials h key path m₀ ≡ ok m
        → IsUnkeyed n
        → h.get m n ≡ h.get m₀ n
    unfolding put_credentials
    put_credentials-get none path n m₀ m e u = let same : m₀ ≡ m = ok-injective e in rw same refl
    put_credentials-get (some key) path n m₀ m e u =
        put_key-get (is_messages (classify path)) key n m₀ m e u

    -- No header that is about the agent's connection reaches the provider but `Host`, whatever the
    -- peer's frame carries and whatever key is configured, if the header map reads the names of
    -- that frame as themselves.
    pub request_headers-drops :
        (name : List ℕ) (key : Option (List ℕ)) (path n : List ℕ) (sent : Pairs) (m : M)
        → All IsCanonical sent
        → request_headers h name key path sent ≡ ok m
        → contains drop_request n ≡ true
        → host ≢ n
        → h.get m n ≡ none
    unfolding request_headers put_host
    request_headers-drops name key path n sent m cs e d other =
        put_credentials-get key path n _ m e (drop_request-IsUnkeyed n d)
        ∙ laws.get-insert_other host n _ _ other
        ∙ forward_headers-drops sent n h.empty cs d (laws.get-empty n)
