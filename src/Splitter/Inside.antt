-- ===== src/Splitter/Inside.antt =====
-- The candidates of `structural_groups` (crates/muka-split/src/splitter.rs): their spans and kinds.
use muka_ai_trim.Common.{
  ℕ, zero, suc, ◌+◌, ◌<◌, ◌≡◌, ◌≢◌, refl, subst, arith, Bool, true, false, ◌&&◌, List, [], ◌∷◌, leb,
  if◌then◌else◌, if-holds, length, Result, ok, err, >>=-eq-ok, ok-injective, All, All-append,
}
use muka_ai_trim.Digest.{json_member, media, text}
use muka_ai_trim.Json.{Span, IsInside, span_len}
use muka_ai_trim.Json.Scan.{
  ScanError, ValueKind, ValueSpan, string, number, object, array, bool, null,
}
use muka_ai_trim.Json.Members.{Member, members_of_object, elements_of_array, values}
use muka_ai_trim.Json.Chain.{Chain, members_of_object-Chain, elements_of_array-Chain}
use muka_ai_trim.Policy.{Policy, Cand, Skip, unrecognised}
use muka_ai_trim.Splitter.Candidates.{
  any_key, array_member_keys, whole_value_keys, is_array, is_media_member, member_cand,
  starts_with_data_uri, string_payload, member_payloads, element_payloads, collect_payloads,
  max_payload_cands, looks_like_payload, element_cands, cands_of_member, member_cands,
}

module _ (body : List ℕ) where
  -- A value of the JSON body: some bytes of it.
  abbrev pub IsValueOf : ValueSpan → Type 0
  IsValueOf v = IsInside v.span body × (v.span.start < v.span.end)

  -- A candidate for a block with payloads inside: some bytes of the body, as a JSON member.
  pub record IsWhole (c : Cand) : Type 0 where
    pub inside : IsInside c.span body
    pub some_bytes : c.span.start < c.span.end
    pub a_member : c.kind ≡ json_member

  -- A payload.
  pub record IsPart (c : Cand) : Type 0 where
    pub inside : IsInside c.span body
    pub no_member : c.kind ≢ json_member

  Chain-IsValueOf : (stop pos : ℕ) (vs : List ValueSpan) → Chain body stop pos vs → All IsValueOf vs
  Chain-IsValueOf stop pos [] h = tt
  Chain-IsValueOf stop pos (v ∷ vs) (a, b, c, d, h) =
      ((record { ordered = omega (arith, b); within = d }, b), Chain-IsValueOf stop v.span.end vs h)

  elements-IsValueOf :
      (arr : Span) (vs : List ValueSpan) → elements_of_array body arr ≡ ok vs → All IsValueOf vs
  elements-IsValueOf arr vs h =
      Chain-IsValueOf arr.end (arr.start + 1) vs (elements_of_array-Chain body arr vs h)

  pub members-IsValueOf :
      (obj : Span) (ms : List Member)
      → members_of_object body obj ≡ ok ms
      → All IsValueOf (values body ms)
  members-IsValueOf obj ms h =
      Chain-IsValueOf obj.end (obj.start + 1) (values body ms)
        (members_of_object-Chain body obj ms h)

  module _ (p : Policy) where
    abbrev AllWholes : List Cand → Type 0
    AllWholes cs = All IsWhole cs

    member_cand-IsWhole :
        (floor : ℕ) (v : ValueSpan) → IsValueOf v → IsWhole (member_cand body p floor v.span)
    member_cand-IsWhole floor v h = record { inside = h.0; some_bytes = h.1; a_member = refl }

    element_cands-IsWhole :
        (floor : ℕ) (vs : List ValueSpan)
        → All IsValueOf vs
        → AllWholes (element_cands body p floor vs)
    unfolding element_cands
    element_cands-IsWhole floor [] h = tt
    element_cands-IsWhole floor (v ∷ vs) (h, hs) =
        if-holds AllWholes (leb floor (span_len v.span))
          (member_cand-IsWhole floor v h, element_cands-IsWhole floor vs hs)
          (element_cands-IsWhole floor vs hs)

    abbrev BothWholes : List Cand × List Cand → Type 0
    BothWholes q = AllWholes q.0 × AllWholes q.1

    cands_of_member-IsWhole :
        (m : Member) (q : List Cand × List Cand)
        → IsValueOf m.value
        → cands_of_member body p m ≡ ok q
        → BothWholes q
    unfolding cands_of_member
    cands_of_member-IsWhole m q h =
        if-holds (λ r. r ≡ ok q → BothWholes q) (any_key array_member_keys m.key)
          (if-holds (λ r. r ≡ ok q → BothWholes q) (is_array m.value.kind)
            (at_elements (elements_of_array body m.value.span) (elements-IsValueOf m.value.span))
            (λ e. subst BothWholes (ok-injective e) (tt, tt)))
          (if-holds (λ r. r ≡ ok q → BothWholes q)
            (any_key whole_value_keys m.key && leb p.min_block_bytes (span_len m.value.span))
            (λ e.
              subst BothWholes (ok-injective e)
                ((member_cand-IsWhole p.min_block_bytes m.value h, tt), tt))
            (λ e. subst BothWholes (ok-injective e) (tt, tt)))
      where
        at_elements :
            (r : Result ScanError (List ValueSpan))
            → ((vs : List ValueSpan) → r ≡ ok vs → All IsValueOf vs)
            → ◌≡◌ {A = Result Skip (List Cand × List Cand)}
                (elim r [
                  | err e ↦ err unrecognised
                  | ok vs ↦ ok ([], element_cands body p p.min_history_block_bytes vs)
                ])
                (ok q)
            → BothWholes q
        at_elements (err e) hv k = cc
        at_elements (ok vs) hv k =
            subst BothWholes (ok-injective k)
              (tt, element_cands-IsWhole p.min_history_block_bytes vs (hv vs refl))

    pub member_cands-IsWhole :
        (ms : List Member) (q : List Cand × List Cand)
        → All IsValueOf (values body ms)
        → member_cands body p ms ≡ ok q
        → BothWholes q
    unfolding member_cands
    member_cands-IsWhole [] q h e = subst BothWholes (ok-injective e) (tt, tt)
    member_cands-IsWhole (m ∷ ms) q (h, hs) e =
        let (one, h₁, e₁) = >>=-eq-ok (cands_of_member body p m) _ e in
        let (more, h₂, e₂) = >>=-eq-ok (member_cands body p ms) _ e₁ in
        let (a, b) = cands_of_member-IsWhole m one h h₁ in
        let (c, d) = member_cands-IsWhole ms more hs h₂ in
        subst BothWholes (ok-injective e₂)
          (All-append IsWhole one.0 more.0 a c, All-append IsWhole one.1 more.1 b d)

    abbrev AllParts : List Cand → Type 0
    AllParts cs = All IsPart cs

    payload_kind : (t : Bool) → (if t then media else text) ≢ json_member
    payload_kind true = λ e. cc
    payload_kind false = λ e. cc

    string_payload-IsPart :
        (s : Span) (out : List Cand)
        → IsInside s body
        → AllParts out
        → AllParts (string_payload body p s out)
    unfolding string_payload
    string_payload-IsPart s out h ho =
        if-holds AllParts (leb p.min_payload_bytes (span_len s) && looks_like_payload body s)
          (All-append IsPart out _ ho
            (record { inside = h; no_member = payload_kind (starts_with_data_uri body s) }, tt))
          ho

    -- What a collector of payloads keeps.
    abbrev Keeps : (ValueSpan → List Cand → List Cand) → Type 0
    Keeps collect =
        (v : ValueSpan) (out : List Cand) → IsValueOf v → AllParts out → AllParts (collect v out)

    member_payloads-IsPart :
        (collect : ValueSpan → List Cand → List Cand)
        → Keeps collect
        → (ms : List Member) (out : List Cand) → All IsValueOf (values body ms)
        → AllParts out
        → AllParts (member_payloads body p collect ms out)
    unfolding member_payloads
    member_payloads-IsPart collect keeps [] out h ho = ho
    member_payloads-IsPart collect keeps (m ∷ ms) out (h, hs) ho =
        member_payloads-IsPart collect keeps ms _ hs (
          if-holds AllParts (is_media_member body p m)
            (All-append IsPart out _ ho (record { inside = h.0; no_member = λ e. cc }, tt))
            (keeps m.value out h ho))

    element_payloads-IsPart :
        (collect : ValueSpan → List Cand → List Cand)
        → Keeps collect
        → (vs : List ValueSpan) (out : List Cand) → All IsValueOf vs
        → AllParts out
        → AllParts (element_payloads body p collect vs out)
    unfolding element_payloads
    element_payloads-IsPart collect keeps [] out h ho = ho
    element_payloads-IsPart collect keeps (v ∷ vs) out (h, hs) ho =
        element_payloads-IsPart collect keeps vs (collect v out) hs (keeps v out h ho)

    pub collect_payloads-IsPart : (room : ℕ) → Keeps (collect_payloads body p room)
    unfolding collect_payloads
    collect_payloads-IsPart zero v out h ho = ho
    collect_payloads-IsPart (suc room) v out h ho =
        at_full (leb max_payload_cands (length out)) (at_kind v.kind (collect_payloads-IsPart room))
      where
        at_members :
            (r : Result ScanError (List Member))
            → ((ms : List Member) → r ≡ ok ms → All IsValueOf (values body ms))
            → Keeps (collect_payloads body p room)
            → AllParts (elim r [
              | err e ↦ out
              | ok ms ↦ member_payloads body p (collect_payloads body p room) ms out
            ])
        at_members (err e) hv keeps = ho
        at_members (ok ms) hv keeps =
            member_payloads-IsPart (collect_payloads body p room) keeps ms out (hv ms refl) ho

        at_elements :
            (r : Result ScanError (List ValueSpan))
            → ((vs : List ValueSpan) → r ≡ ok vs → All IsValueOf vs)
            → Keeps (collect_payloads body p room)
            → AllParts (elim r [
              | err e ↦ out
              | ok vs ↦ element_payloads body p (collect_payloads body p room) vs out
            ])
        at_elements (err e) hv keeps = ho
        at_elements (ok vs) hv keeps =
            element_payloads-IsPart (collect_payloads body p room) keeps vs out (hv vs refl) ho

        by_kind : ValueKind → List Cand
        by_kind k = elim k [
          | string ↦ string_payload body p v.span out
          | object ↦ elim (members_of_object body v.span) [
            | err e ↦ out
            | ok ms ↦ member_payloads body p (collect_payloads body p room) ms out
          ]
          | array ↦ elim (elements_of_array body v.span) [
            | err e ↦ out
            | ok vs ↦ element_payloads body p (collect_payloads body p room) vs out
          ]
          | k ↦ out
        ]

        at_kind : (k : ValueKind) → Keeps (collect_payloads body p room) → AllParts (by_kind k)
        at_kind string keeps = string_payload-IsPart v.span out h.0 ho
        at_kind object keeps =
            at_members (members_of_object body v.span) (members-IsValueOf v.span) keeps
        at_kind array keeps =
            at_elements (elements_of_array body v.span) (elements-IsValueOf v.span) keeps
        at_kind number keeps = ho
        at_kind bool keeps = ho
        at_kind null keeps = ho

        at_full :
            (full : Bool)
            → AllParts (by_kind v.kind)
            → AllParts (elim full [ true ↦ out | false ↦ by_kind v.kind ])
        at_full true q = ho
        at_full false q = q
