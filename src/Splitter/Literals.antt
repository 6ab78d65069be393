-- ===== src/Splitter/Literals.antt =====
-- Slices of the body, and the literal runs that `lit` flushes.
use muka_ai_trim.Common.{
  ℕ, ◌+◌, ◌-◌, ◌≤◌, ◌≡◌, refl, sym, ap, ◌∙◌, arith, List, [], ◌∷◌, ◌++◌, append-nil, min, length,
  take, drop, take-plus, drop-drop, length-take, length-drop, ltb, Bool-cases, inl, inr, ltb→lt,
  ltb→ge, if◌then◌else◌,
}
use muka_ai_trim.Digest.{Digest}
use muka_ai_trim.Json.{Span, slice, IsInside, span_len}
use muka_ai_trim.Program.{lit}
use muka_ai_trim.Program.Meaning.{expand, expand-append}
use muka_ai_trim.Splitter.{Builder, flush}

pub take-slice :
    (body : List ℕ) (s e : ℕ)
    → s ≤ e
    → take s body ++ slice (record { start = s; end = e }) body ≡ take e body
unfolding slice
take-slice body s e h =
    let split : s + (e - s) ≡ e = omega arith in
    sym (take-plus s (e - s) body) ∙ ap (λ (k : ℕ). take k body) split

pub length-slice : (s : Span) (body : List ℕ) → IsInside s body → length (slice s body) ≡ span_len s
unfolding slice span_len
length-slice s body h = omega (
  arith,
  length-take (s.end - s.start) (drop s.start body),
  length-drop s.start body,
  h.ordered,
  h.within,
)

-- The program so far stands for the body up to the position.
pub record IsAt {S : Type 0} (content : Digest → List ℕ) (body : List ℕ) (b : Builder S)
    : Type 0 where
  pub inside : b.pos ≤ length body
  pub meaning : expand content b.instrs ≡ take b.pos body

module _ {S : Type 0} (content : Digest → List ℕ) (body : List ℕ) where
  pub flush-IsAt :
      (e : ℕ) (b : Builder S) → IsAt content body b → IsAt content body (flush body e b)
  unfolding flush
  flush-IsAt e b h = elim (Bool-cases (ltb b.pos (min e (length body)))) [
    | inl more ↦
        let lt = ltb→lt b.pos (min e (length body)) more in
        rw more (record {
          inside = omega arith;
          meaning =
              expand-append content b.instrs _
              ∙ rw (h.meaning, append-nil)
                  (take-slice body b.pos (min e (length body)) (omega arith));
        })
    | inr done ↦ rw done h
  ]

  -- Flushed up to a point not before the position, the builder stands at that point.
  pub flush-pos : (e : ℕ) (b : Builder S) → b.pos ≤ e → e ≤ length body → (flush body e b).pos ≡ e
  unfolding flush
  flush-pos e b h k = ground arith

  pub push-flush : (e : ℕ) (b : Builder S) → (flush body e b).push ≡ b.push
  unfolding flush
  push-flush e b = ground arith

  pub queued-flush : (e : ℕ) (b : Builder S) → (flush body e b).queued ≡ b.queued
  unfolding flush
  queued-flush e b = ground arith

abbrev pub from_to : ℕ → ℕ → Span
from_to s e = record { start = s; end = e }

pub slice-slice :
    (body : List ℕ) (s m e : ℕ)
    → s ≤ m
    → m ≤ e
    → slice (from_to s m) body ++ slice (from_to m e) body ≡ slice (from_to s e) body
unfolding slice
slice-slice body s m e h k =
    let whole : m - s + (e - m) ≡ e - s = omega arith in
    let skip : s + (m - s) ≡ m = omega arith in
    let cut = take-plus (m - s) (e - m) (drop s body) in
    let moved = drop-drop s (m - s) body ∙ ap (λ (t : ℕ). drop t body) skip in
    sym (
      sym (ap (λ (t : ℕ). take t (drop s body)) whole)
      ∙ cut
      ∙ ap (λ (t : List ℕ). take (m - s) (drop s body) ++ take (e - m) t) moved)

pub slice_empty : (body : List ℕ) (s : ℕ) → slice (from_to s s) body ≡ []
unfolding slice
slice_empty body s = let e : s - s ≡ 0 = omega arith in rw e refl

-- A literal for the gap between two positions, or none where there is no gap.
pub expand-gap :
    (content : Digest → List ℕ) (body : List ℕ) (s e : ℕ)
    → s ≤ e
    → expand content (if ltb s e then lit (slice (from_to s e) body) ∷ [] else [])
      ≡ slice (from_to s e) body
expand-gap content body s e h = elim (Bool-cases (ltb s e)) [
  | inl lt ↦ rw lt (append-nil _)
  | inr ge ↦
      let same : e ≡ s = omega (arith, ltb→ge s e ge) in
      rw ge (sym (slice_empty body s) ∙ ap (λ (t : ℕ). slice (from_to s t) body) (sym same))
]
