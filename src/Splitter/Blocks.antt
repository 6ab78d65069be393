-- ===== src/Splitter/Blocks.antt =====
-- `queue` and `make_block` of crates/muka-split/src/splitter.rs.
use muka_ai_trim.Common.{
  ℕ, ◌≤◌, ◌≡◌, refl, sym, ap, ◌∙◌, arith, List, [], ◌∷◌, ◌++◌, append-nil, false, ◌||◌, length, ltb,
  Bool-cases, inl, inr, if◌then◌else◌, All, All-append, ◌==◌,
}
use muka_ai_trim.Digest.{Digest, BlockKind, digest_of}
use muka_ai_trim.Json.{Span, slice, IsInside, span_len}
use muka_ai_trim.Policy.{Cand}
use muka_ai_trim.Program.{Instr, lit, ref, Block, raw_block, program_block}
use muka_ai_trim.Program.Meaning.{expand, expand-append, body_bytes}
use muka_ai_trim.Program.Normal.{expand-normalize}
use muka_ai_trim.Resolve.{contains, is_empty}
use muka_ai_trim.Splitter.{
  Builder, Ctx, queue, Nest, count_hit, count_nested, nest_child, nest_children, close_nest,
  shape_block, make_block,
}
use muka_ai_trim.Splitter.Literals.{from_to, slice-slice, slice_empty, expand-gap}

-- A block that stands for the bytes that its digest names, at their length.
pub record IsTrue (content : Digest → List ℕ) (b : Block) : Type 0 where
  pub stands : body_bytes content b.body ≡ content b.digest
  pub sized : b.len ≡ length (content b.digest)

-- On the slices of this body no two contents share a digest: `content` names each of them.
abbrev pub Names : (blake3 : List ℕ → List ℕ) (content : Digest → List ℕ) (body : List ℕ) → Type 0
Names blake3 content body =
    (k : BlockKind) (s : Span)
    → IsInside s body
    → content (digest_of blake3 k (slice s body)) ≡ slice s body

abbrev pub digests : List Block → List Digest
digests [] = []
digests (b ∷ bs) = b.digest ∷ digests bs

pub digests-append : (xs ys : List Block) → digests (xs ++ ys) ≡ digests xs ++ digests ys
digests-append [] ys = refl
digests-append (x ∷ xs) ys = rw (digests-append xs ys)

pub record IsStocked {S : Type 0} (content : Digest → List ℕ) (b : Builder S) : Type 0 where
  pub truthful : All (IsTrue content) b.push
  pub queued_push : b.queued ≡ digests b.push

module _ {S : Type 0} (ctx : Ctx S) (content : Digest → List ℕ) (body : List ℕ) where
  pub queue-IsStocked :
      (blk : Block) (b : Builder S)
      → IsTrue content blk
      → IsStocked content b
      → IsStocked content (queue ctx blk b)
  unfolding queue
  queue-IsStocked blk b t h = elim (Bool-cases (contains b.queued blk.digest)) [
    | inl old ↦ rw old h
    | inr new ↦ rw new (record {
      truthful = All-append (IsTrue content) b.push (blk ∷ []) h.truthful (t, tt);
      queued_push = rw (digests-append, h.queued_push);
    })
  ]

  raw_block-IsTrue :
      Names ctx.blake3 content body
      → (k : BlockKind) (s : Span) → IsInside s body
      → IsTrue content (raw_block (digest_of ctx.blake3 k (slice s body)) k (slice s body))
  unfolding raw_block
  raw_block-IsTrue names k s h = record {
    stands = sym (names k s h);
    sized = ap length (sym (names k s h));
  }

-- The candidates that the splitter builds are spans in order.
abbrev pub IsOrdered : Cand → Type 0
IsOrdered c = c.span.start ≤ c.span.end

-- A gap and a reference, behind a program that stands for the bytes before them.
expand-gap-ref :
    (content : Digest → List ℕ) (body : List ℕ) (xs gap : List Instr) (d : Digest) (n s m t e : ℕ)
    → expand content xs ≡ slice (from_to s m) body
    → expand content gap ≡ slice (from_to m t) body
    → content d ≡ slice (from_to t e) body
    → s ≤ m
    → m ≤ t
    → t ≤ e
    → expand content (xs ++ (gap ++ (ref d n ∷ []))) ≡ slice (from_to s e) body
expand-gap-ref content body xs gap d n s m t e hx hg hd sm mt te =
    rw (expand-append content xs, expand-append content gap, hx, hg, append-nil, hd)
      (ap (λ (r : List ℕ). slice (from_to s m) body ++ r) (slice-slice body m t e mt te)
        ∙ slice-slice body s m e sm (omega arith))

module _ {S : Type 0} (ctx : Ctx S) (content : Digest → List ℕ) (body : List ℕ)
    (names : Names ctx.blake3 content body) (c : Cand) (inside : IsInside c.span body)
    (b₀ : Builder S) where
  -- The nested program stands for the candidate's bytes up to the position, and the builder's own
  -- program has not changed.
  record IsNested (n : Nest ctx) : Type 0 where
    stocked : IsStocked content n.builder
    after : c.span.start ≤ n.at
    before : n.at ≤ c.span.end
    meaning : expand content n.nested ≡ slice (from_to c.span.start n.at) body
    same_instrs : n.builder.instrs ≡ b₀.instrs
    same_pos : n.builder.pos ≡ b₀.pos

  -- A candidate inside the outer one and behind the position.
  child-IsInside :
      (n : Nest ctx) (ch : Cand) → IsOrdered ch → ch.span.end ≤ c.span.end → IsInside ch.span body
  child-IsInside n ch o h = record { ordered = o; within = omega (arith, inside.within) }

  queued_child :
      (n : Nest ctx) (ch : Cand)
      → IsNested n
      → IsInside ch.span body
      → IsStocked content (
          if ctx.peer (digest_of ctx.blake3 ch.kind (slice ch.span body))
          then count_hit ctx (count_nested ctx n.builder)
          else queue ctx
              (raw_block
                (digest_of ctx.blake3 ch.kind (slice ch.span body))
                ch.kind
                (slice ch.span body))
              (count_nested ctx n.builder))
  unfolding count_hit count_nested
  queued_child n ch h i =
      elim (Bool-cases (ctx.peer (digest_of ctx.blake3 ch.kind (slice ch.span body)))) [
        | inl hit ↦
            rw hit (record { truthful = h.stocked.truthful; queued_push = h.stocked.queued_push })
        | inr new ↦ rw new (
            queue-IsStocked ctx content body _ _
              (raw_block-IsTrue ctx content body names ch.kind ch.span i)
              (record { truthful = h.stocked.truthful; queued_push = h.stocked.queued_push }))
      ]

  kept_builder :
      (d : Digest) (blk : Block) (b : Builder S)
      → ((if ctx.peer d
            then count_hit ctx (count_nested ctx b)
            else queue ctx blk (count_nested ctx b)).instrs
          ≡ b.instrs)
        × ((if ctx.peer d
              then count_hit ctx (count_nested ctx b)
              else queue ctx blk (count_nested ctx b)).pos
            ≡ b.pos)
  unfolding count_hit count_nested queue
  kept_builder d blk b = ground arith

  nest_child-IsNested :
      (ch : Cand) (n : Nest ctx) → IsOrdered ch → IsNested n → IsNested (nest_child ctx body c ch n)
  unfolding nest_child
  nest_child-IsNested ch n o h =
      elim (Bool-cases (
        ltb ch.span.start n.at
        || (ltb c.span.end ch.span.end || ltb (span_len ch.span) ch.floor))) [
          | inl skip ↦ rw skip h
          | inr keep ↦
              let (behind, below) = room ch n keep in
              let i = child-IsInside n ch o below in
              let cd = digest_of ctx.blake3 ch.kind (slice ch.span body) in
              let kept = kept_builder cd (raw_block cd ch.kind (slice ch.span body)) n.builder in
              rw keep (record {
                stocked = queued_child n ch h i;
                after = omega (arith, h.after);
                before = below;
                meaning =
                    expand-gap-ref content body n.nested _ cd (span_len ch.span) c.span.start n.at
                      ch.span.start ch.span.end h.meaning
                      (expand-gap content body n.at ch.span.start behind) (names ch.kind ch.span i)
                      h.after behind o;
                same_instrs = kept.0 ∙ h.same_instrs;
                same_pos = kept.1 ∙ h.same_pos;
              })
        ]
    where
      room :
          (ch : Cand) (n : Nest ctx)
          → (ltb ch.span.start n.at
              || (ltb c.span.end ch.span.end || ltb (span_len ch.span) ch.floor))
            ≡ false
          → (n.at ≤ ch.span.start) × (ch.span.end ≤ c.span.end)
      room ch n k = ground arith

  nest_children-IsNested :
      (inner : List Cand) (n : Nest ctx)
      → All IsOrdered inner
      → IsNested n
      → IsNested (nest_children ctx body c inner n)
  unfolding nest_children
  nest_children-IsNested [] n os h = h
  nest_children-IsNested (ch ∷ inner) n (o, os) h =
      nest_children-IsNested inner (nest_child ctx body c ch n) os (nest_child-IsNested ch n o h)

  -- The program of the finished block stands for all bytes of the candidate.
  expand-close_nest :
      (n : Nest ctx) → IsNested n → expand content (close_nest ctx body c n) ≡ slice c.span body
  unfolding close_nest
  expand-close_nest n h =
      expand-normalize content _
      ∙ expand-append content n.nested _
      ∙ rw (h.meaning, expand-gap content body n.at c.span.end h.before)
          (slice-slice body c.span.start n.at c.span.end h.after h.before)

  program_block-IsTrue :
      (is : List Instr)
      → expand content is ≡ slice c.span body
      → IsTrue content (
          program_block
            (digest_of ctx.blake3 c.kind (slice c.span body))
            c.kind
            (length (slice c.span body))
            is)
  unfolding program_block
  program_block-IsTrue is e = record {
    stands = e ∙ sym (names c.kind c.span inside);
    sized = ap length (sym (names c.kind c.span inside));
  }

  shape_block-IsTrue :
      (is : List Instr)
      → expand content is ≡ slice c.span body
      → IsTrue content (
          shape_block ctx
            (digest_of ctx.blake3 c.kind (slice c.span body))
            c.kind
            (slice c.span body)
            is)
  unfolding shape_block
  shape_block-IsTrue [] e = program_block-IsTrue [] e
  shape_block-IsTrue (lit b ∷ []) e = elim (Bool-cases (length b == length (slice c.span body))) [
    | inl same ↦ rw same (raw_block-IsTrue ctx content body names c.kind c.span inside)
    | inr other ↦ rw other (program_block-IsTrue (lit b ∷ []) e)
  ]
  shape_block-IsTrue (lit b ∷ i ∷ is) e = program_block-IsTrue (lit b ∷ i ∷ is) e
  shape_block-IsTrue (ref d n ∷ is) e = program_block-IsTrue (ref d n ∷ is) e

  start_IsNested :
      IsStocked content b₀ → IsNested (record { builder = b₀; nested = []; at = c.span.start })
  start_IsNested h = record {
    stocked = h;
    after = omega arith;
    before = inside.ordered;
    meaning = sym (slice_empty body c.span.start);
    same_instrs = refl;
    same_pos = refl;
  }

  pub expand-nested :
      (inner : List Cand)
      → All IsOrdered inner
      → IsStocked content b₀
      → expand content (
          close_nest ctx body c (
            nest_children ctx body c inner
              (record { builder = b₀; nested = []; at = c.span.start })))
        ≡ slice c.span body
  expand-nested inner os h =
      expand-close_nest _ (nest_children-IsNested inner _ os (start_IsNested h))

  -- What `make_block` returns: a true block, a builder that is still stocked, and no change to
  -- the program.
  pub record IsMade (r : Builder S × Block) : Type 0 where
    pub stocked : IsStocked content r.0
    pub true_block : IsTrue content r.1
    pub same_instrs : r.0.instrs ≡ b₀.instrs
    pub same_pos : r.0.pos ≡ b₀.pos

  pub make_block-IsMade :
      (inner : List Cand)
      → All IsOrdered inner
      → IsStocked content b₀
      → IsMade (make_block ctx body (digest_of ctx.blake3 c.kind (slice c.span body)) c inner b₀)
  unfolding make_block
  make_block-IsMade inner os h = elim (Bool-cases (is_empty inner)) [
    | inl none_inside ↦ rw none_inside (record {
      stocked = h;
      true_block = raw_block-IsTrue ctx content body names c.kind c.span inside;
      same_instrs = refl;
      same_pos = refl;
    })
    | inr some_inside ↦
        let n = nest_children-IsNested inner _ os (start_IsNested h) in
        rw some_inside (record {
          stocked = n.stocked;
          true_block = shape_block-IsTrue _ (expand-close_nest _ n);
          same_instrs = n.same_instrs;
          same_pos = n.same_pos;
        })
  ]
