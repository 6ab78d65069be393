-- ===== src/Splitter/Body.antt =====
-- `split_body` of crates/muka-split/src/splitter.rs as a whole: its guards, the choice between the JSON
-- structure and content-defined chunks, and the split.
use muka_ai_trim.Common.{
  ℕ, ◌≤◌, ◌<◌, ◌≡◌, refl, subst, arith, max, true, not, List, [], ◌∷◌, length, ltb, if◌then◌else◌,
  Result, ok, err, >>=-eq-ok, ok-injective, guard-eq-ok, All,
}
use muka_ai_trim.Json.{Span, IsInside}
use muka_ai_trim.Json.Scan.{
  ScanError, syntax, ValueSpan, scan_document, scan_value, scan_value_depth,
}
use muka_ai_trim.Json.Values.{scan_value_depth-StandsAt}
use muka_ai_trim.Chunks.{cdc_candidates}
use muka_ai_trim.Chunks.Tiling.{Tiles, cdc_candidates-Tiles}
use muka_ai_trim.Policy.{Cand, Group, Skip, disabled, too_small, too_large, unrecognised}
use muka_ai_trim.Resolve.{is_empty}
use muka_ai_trim.Splitter.{Builder, Ctx, new_builder, Action, passthrough, split_groups}
use muka_ai_trim.Splitter.Candidates.{structural_groups, groups_of}
use muka_ai_trim.Splitter.Placed.{IsPlaced, groups_of-IsPlaced, structural_groups-IsPlaced}

module _ {S : Type 0} (ctx : Ctx S) (body : List ℕ) where
  -- No groups where the body is no JSON object, or one without structure.
  unfoldable pub body_groups : List Group
  body_groups = elim (scan_document body) [
    | err e ↦ []
    | ok d ↦ elim (structural_groups body ctx.policy d.span) [ err e ↦ [] | ok gs ↦ gs ]
  ]

  unfoldable pub chunk_groups : List Group
  chunk_groups = groups_of (
      cdc_candidates ctx.blake3 body (record { start = 0; end = length body })
        (max ctx.policy.cdc_min ctx.policy.min_block_bytes) ctx.policy.cdc_max ctx.policy.cdc_bits)

  abbrev pub mark_structural : Builder S → Builder S
  mark_structural b = record b { stats = record b.stats { structural = true } }

  abbrev pub mark_cdc : Builder S → Builder S
  mark_cdc b = record b { stats = record b.stats { cdc_used = true } }

  unfoldable pub split_found : List Group → S → Action
  split_found groups local =
      if is_empty groups
      then (if not ctx.policy.cdc_fallback
          then passthrough unrecognised
          else split_groups ctx body chunk_groups (mark_cdc (new_builder body local)))
      else split_groups ctx body groups (mark_structural (new_builder body local))

  unfoldable pub split_body : S → Action
  split_body local =
      if not ctx.policy.enabled
      then passthrough disabled
      else if ltb (length body) ctx.policy.min_body_bytes
      then passthrough (too_small (length body))
      else if ltb ctx.policy.max_body_bytes (length body)
      then passthrough (too_large (length body))
      else split_found body_groups local

  Tiles-le :
      (floor ceiling start end : ℕ) (cs : List Cand)
      → Tiles floor ceiling start end cs
      → start ≤ end
  unfolding Tiles
  Tiles-le floor ceiling start end [] h = omega (arith, h)
  Tiles-le floor ceiling start end (c ∷ []) (a, b, d, e) = omega (arith, b, d)
  Tiles-le floor ceiling start end (c ∷ d ∷ cs) (a, b, e, f, h) =
      omega (arith, b, Tiles-le floor ceiling c.span.end end (d ∷ cs) h)

  Tiles-IsInside :
      (floor ceiling start end : ℕ) (cs : List Cand)
      → end ≤ length body
      → Tiles floor ceiling start end cs
      → All (λ c. IsInside c.span body) cs
  unfolding Tiles
  Tiles-IsInside floor ceiling start end [] le h = tt
  Tiles-IsInside floor ceiling start end (c ∷ []) le (a, b, d, e) =
      (record { ordered = omega (arith, a, b); within = omega (arith, d, le) }, tt)
  Tiles-IsInside floor ceiling start end (c ∷ d ∷ cs) le (a, b, e, f, h) = (
    record {
      ordered = omega (arith, a, b);
      within = omega (arith, le, Tiles-le floor ceiling c.span.end end (d ∷ cs) h);
    },
    Tiles-IsInside floor ceiling c.span.end end (d ∷ cs) le h,
  )

  pub chunk_groups-IsPlaced : All (IsPlaced body) chunk_groups
  unfolding chunk_groups
  chunk_groups-IsPlaced =
      let floor : ℕ = max ctx.policy.cdc_min ctx.policy.min_block_bytes in
      let range : Span = record { start = 0; end = length body } in
      groups_of-IsPlaced body _ (
        Tiles-IsInside floor ctx.policy.cdc_max 0 (length body) _ (omega arith) (
          cdc_candidates-Tiles ctx.blake3 body range floor ctx.policy.cdc_max ctx.policy.cdc_bits
            (record { ordered = omega arith; within = omega arith })))

  document-IsInside :
      (d : ValueSpan)
      → scan_document body ≡ ok d
      → IsInside d.span body × (d.span.start < d.span.end)
  unfolding scan_document scan_value
  document-IsInside d h =
      let (v, hv, h₁) = >>=-eq-ok (scan_value_depth body 0 0) _ h in
      let (_, h₂) = guard-eq-ok _ (syntax "trailing bytes after document" v.span.end) _ h₁ in
      let (_, h₃) = guard-eq-ok _ (syntax "document is not an object" v.span.start) _ h₂ in
      let same : v ≡ d = ok-injective h₃ in
      let (_, s) = scan_value_depth-StandsAt body 0 0 v hv in
      subst (λ (w : ValueSpan). IsInside w.span body × (w.span.start < w.span.end)) same
        (record { ordered = omega (arith, s.0, s.1); within = s.2 }, omega (arith, s.0, s.1))

  pub body_groups-IsPlaced : All (IsPlaced body) body_groups
  unfolding body_groups
  body_groups-IsPlaced = at_doc (scan_document body) document-IsInside
    where
      at_groups :
          (r : Result Skip (List Group))
          → ((gs : List Group) → r ≡ ok gs → All (IsPlaced body) gs)
          → All (IsPlaced body) (elim r [ err e ↦ [] | ok gs ↦ gs ])
      at_groups (err e) h = tt
      at_groups (ok gs) h = h gs refl

      at_doc :
          (r : Result ScanError ValueSpan)
          → ((d : ValueSpan) → r ≡ ok d → IsInside d.span body × (d.span.start < d.span.end))
          → All (IsPlaced body) (elim r [
            | err e ↦ []
            | ok d ↦ elim (structural_groups body ctx.policy d.span) [ err e ↦ [] | ok gs ↦ gs ]
          ])
      at_doc (err e) h = tt
      at_doc (ok d) h =
          at_groups (structural_groups body ctx.policy d.span)
            (λ gs. structural_groups-IsPlaced body ctx.policy d.span gs (h d refl).0 (h d refl).1)
