-- ===== src/Splitter/Fit.antt =====
-- The sizes and the nesting of what a split refers to (crates/muka-split/src/splitter.rs).
use muka_ai_trim.Common.{
  ℕ, ◌<◌, ◌≡◌, ◌≢◌, ◌⊎◌, inl, inr, refl, sym, ap, ◌∙◌, subst, arith, Bool, true, false, ◌||◌, List,
  [], ◌∷◌, ◌++◌, length, ltb, ◌==◌, if◌then◌else◌, if-holds, All, All-append, Bool-cases, min,
}
use muka_ai_trim.Digest.{Digest, BlockKind, json_member, digest_of}
use muka_ai_trim.Json.{Span, IsInside, slice, span_len}
use muka_ai_trim.Policy.{Cand, Group}
use muka_ai_trim.Program.{
  Instr, lit, ref, BlockBody, bytes, program, Block, raw_block, program_block,
}
use muka_ai_trim.Program.Meaning.{expand}
use muka_ai_trim.Resolve.{contains, is_empty}
use muka_ai_trim.Splitter.{
  SplitOutput, split, Builder, Ctx, flush, queue, Nest, nest_child, nest_children, close_nest,
  shape_block, make_block, count_hit, count_nested, count_ref, count_new, offer, put_ref, reference,
  reference_all, seal, split_groups,
}
use muka_ai_trim.Splitter.Distinct.{IsDistinct, absent-All, IsDistinct-append}
use muka_ai_trim.Splitter.Blocks.{Names, IsStocked, expand-nested, digests, digests-append}
use muka_ai_trim.Splitter.Identity.{
  IsBuilt, flush-IsBuilt, offer-IsOffered, reference-IsBuilt, finish-split,
}
use muka_ai_trim.Splitter.Inside.{IsWhole, IsPart}
use muka_ai_trim.Splitter.Literals.{length-slice}
use muka_ai_trim.Splitter.Placed.{IsPlaced, parts-IsOrdered}
use muka_ai_trim.Splitter.Refs.{AllRefs, AllRefs-append, AllRefs-normalize}

-- On the slices of this body no two kinds share a digest: `kind_of` names the kind.
abbrev pub Kinds : (List ℕ → List ℕ) → (Digest → BlockKind) → List ℕ → Type 0
Kinds blake3 kind_of body =
    (k : BlockKind) (s : Span) → IsInside s body → kind_of (digest_of blake3 k (slice s body)) ≡ k

module _ (content : Digest → List ℕ) (kind_of : Digest → BlockKind) where
  abbrev pub IsSized : Digest → ℕ → Type 0
  IsSized d n = n ≡ length (content d)

  -- A reference from within a block: never to a JSON member.
  abbrev pub IsLeaf : Digest → ℕ → Type 0
  IsLeaf d n = (n ≡ length (content d)) × (kind_of d ≢ json_member)

  module _ (blake3 : List ℕ → List ℕ) where
    -- Bytes have their digest. Only a JSON member has a program, with something in it.
    abbrev pub HasFit : BlockKind → Digest → BlockBody → Type 0
    HasFit k d (bytes x) = digest_of blake3 k x ≡ d
    HasFit k d (program p) = (is_empty p ≡ false) × AllRefs IsLeaf p × (kind_of d ≡ json_member)

    abbrev pub IsFit : Block → Type 0
    IsFit b = HasFit b.kind b.digest b.body

  expand-is_empty : (is : List Instr) → 0 < length (expand content is) → is_empty is ≡ false
  expand-is_empty [] h = absurd (omega (arith, h))
  expand-is_empty (i ∷ is) h = refl

  module _ {S : Type 0} (ctx : Ctx S) (body : List ℕ) (names : Names ctx.blake3 content body)
      (kinds : Kinds ctx.blake3 kind_of body) where
    -- The blocks to be pushed fit, and are queued once each.
    pub record IsStockFit (b : Builder S) : Type 0 where
      pub fit : All (IsFit ctx.blake3) b.push
      pub queued_push : b.queued ≡ digests b.push
      pub distinct : IsDistinct b.push

    -- A builder with the same blocks.
    same_stock :
        (b r : Builder S) → r.push ≡ b.push → r.queued ≡ b.queued → IsStockFit b → IsStockFit r
    same_stock b r p q h = record {
      fit = rw p h.fit;
      queued_push = rw (p, q) h.queued_push;
      distinct = rw p h.distinct;
    }

    queue-IsStockFit :
        (blk : Block) (b : Builder S)
        → IsFit ctx.blake3 blk
        → IsStockFit b
        → IsStockFit (queue ctx blk b)
    unfolding queue
    queue-IsStockFit blk b f h = elim (Bool-cases (contains b.queued blk.digest)) [
      | inl old ↦ rw old h
      | inr new ↦
          let absent : contains (digests b.push) blk.digest ≡ false = rw h.queued_push at new in
          rw new (record {
            fit = All-append (IsFit ctx.blake3) b.push (blk ∷ []) h.fit (f, tt);
            queued_push = rw (digests-append, h.queued_push);
            distinct =
                IsDistinct-append b.push blk h.distinct (absent-All b.push blk.digest absent);
          })
    ]

    digest_of-IsSized :
        (k : BlockKind) (s : Span)
        → IsInside s body
        → IsSized (digest_of ctx.blake3 k (slice s body)) (length (slice s body))
    digest_of-IsSized k s i = ap length (sym (names k s i))

    IsPart-IsLeaf :
        (c : Cand)
        → IsPart body c
        → IsLeaf (digest_of ctx.blake3 c.kind (slice c.span body)) (span_len c.span)
    IsPart-IsLeaf c h = (
      sym (length-slice c.span body h.inside) ∙ digest_of-IsSized c.kind c.span h.inside,
      λ e. h.no_member (sym (kinds c.kind c.span h.inside) ∙ e),
    )

    record IsNestFit (n : Nest ctx) : Type 0 where
      stock : IsStockFit n.builder
      nested : AllRefs IsLeaf n.nested

    gap-AllRefs :
        (P : Digest → ℕ → Type 0) (t : Bool) (b : List ℕ) → AllRefs P (if t then lit b ∷ [] else [])
    gap-AllRefs P true b = tt
    gap-AllRefs P false b = tt

    nest_child-IsNestFit :
        (c ch : Cand) (n : Nest ctx)
        → IsPart body ch
        → IsNestFit n
        → IsNestFit (nest_child ctx body c ch n)
    unfolding nest_child raw_block count_hit count_nested
    nest_child-IsNestFit c ch n part h =
        let cd : Digest = digest_of ctx.blake3 ch.kind (slice ch.span body) in
        let gap : List ℕ = slice (record { start = n.at; end = ch.span.start }) body in
        if-holds IsNestFit
          (ltb ch.span.start n.at
            || (ltb c.span.end ch.span.end || ltb (span_len ch.span) ch.floor))
          h
          (record {
            stock =
                if-holds IsStockFit (ctx.peer cd)
                  (same_stock n.builder (count_hit ctx (count_nested ctx n.builder)) refl refl
                    h.stock)
                  (queue-IsStockFit (raw_block cd ch.kind (slice ch.span body))
                    (count_nested ctx n.builder) refl
                    (same_stock n.builder (count_nested ctx n.builder) refl refl h.stock));
            nested =
                AllRefs-append IsLeaf n.nested
                  ((if ltb n.at ch.span.start then lit gap ∷ [] else [])
                    ++ (ref cd (span_len ch.span) ∷ []))
                  h.nested
                  (AllRefs-append IsLeaf (if ltb n.at ch.span.start then lit gap ∷ [] else [])
                    (ref cd (span_len ch.span) ∷ [])
                    (gap-AllRefs IsLeaf (ltb n.at ch.span.start) gap) (IsPart-IsLeaf ch part, tt));
          })

    nest_children-IsNestFit :
        (c : Cand) (inner : List Cand) (n : Nest ctx)
        → All (IsPart body) inner
        → IsNestFit n
        → IsNestFit (nest_children ctx body c inner n)
    unfolding nest_children
    nest_children-IsNestFit c [] n ps h = h
    nest_children-IsNestFit c (ch ∷ inner) n (p, ps) h =
        nest_children-IsNestFit c inner (nest_child ctx body c ch n) ps
          (nest_child-IsNestFit c ch n p h)

    close_nest-AllRefs :
        (c : Cand) (n : Nest ctx) → IsNestFit n → AllRefs IsLeaf (close_nest ctx body c n)
    unfolding close_nest
    close_nest-AllRefs c n h =
        AllRefs-normalize IsLeaf _
          (AllRefs-append IsLeaf n.nested _ h.nested (gap-AllRefs IsLeaf (ltb n.at c.span.end) _))

    shape_block-IsFit :
        (d : Digest) (kind : BlockKind) (span_bytes : List ℕ) (is : List Instr)
        → digest_of ctx.blake3 kind span_bytes ≡ d
        → HasFit ctx.blake3 kind d (program is)
        → IsFit ctx.blake3 (shape_block ctx d kind span_bytes is)
    unfolding shape_block raw_block program_block
    shape_block-IsFit d kind span_bytes [] s h = h
    shape_block-IsFit d kind span_bytes (lit b ∷ []) s h =
        if-holds (IsFit ctx.blake3) (length b == length span_bytes) s h
    shape_block-IsFit d kind span_bytes (lit b ∷ i ∷ is) s h = h
    shape_block-IsFit d kind span_bytes (ref e n ∷ is) s h = h

    IsWhole-bytes : (c : Cand) → IsWhole body c → 0 < length (slice c.span body)
    unfolding span_len
    IsWhole-bytes c w = omega (arith, length-slice c.span body w.inside, w.some_bytes)

    record IsMadeFit (r : Builder S × Block) : Type 0 where
      stock : IsStockFit r.0
      block : IsFit ctx.blake3 r.1

    make_block-IsMadeFit :
        (c : Cand) (inner : List Cand) (b : Builder S)
        → All (IsPart body) inner
        → IsWhole body c ⊎ (inner ≡ [])
        → IsStocked content b
        → IsStockFit b
        → IsMadeFit
            (make_block ctx body (digest_of ctx.blake3 c.kind (slice c.span body)) c inner b)
    unfolding make_block raw_block
    make_block-IsMadeFit c [] b ps nests s h = record { stock = h; block = refl }
    make_block-IsMadeFit c (ch ∷ inner) b ps (inr none) s h = cc
    make_block-IsMadeFit c (ch ∷ inner) b ps (inl whole) s h =
        let start : Nest ctx = record { builder = b; nested = []; at = c.span.start } in
        let n : Nest ctx = nest_children ctx body c (ch ∷ inner) start in
        let f : IsNestFit n =
          nest_children-IsNestFit c (ch ∷ inner) start ps (record { stock = h; nested = tt }) in
        let d : Digest = digest_of ctx.blake3 c.kind (slice c.span body) in
        let meant =
          expand-nested ctx content body names c whole.inside b (ch ∷ inner)
            (parts-IsOrdered body (ch ∷ inner) ps) s in
        let filled : 0 < length (slice c.span body) = IsWhole-bytes c whole in
        record {
          stock = f.stock;
          block = shape_block-IsFit d c.kind (slice c.span body) (close_nest ctx body c n) refl (
            expand-is_empty (close_nest ctx body c n)
                (subst (λ (x : List ℕ). 0 < length x) (sym meant) filled),
            close_nest-AllRefs c n f,
            kinds c.kind c.span whole.inside ∙ whole.a_member,
          );
        }

    offer-IsStockFit :
        (c : Cand) (inner : List Cand) (b : Builder S)
        → All (IsPart body) inner
        → IsWhole body c ⊎ (inner ≡ [])
        → IsStocked content b
        → IsStockFit b
        → IsStockFit (offer ctx body (digest_of ctx.blake3 c.kind (slice c.span body)) c inner b)
    unfolding offer count_hit count_new
    offer-IsStockFit c inner b ps nests s h =
        let d : Digest = digest_of ctx.blake3 c.kind (slice c.span body) in
        let m =
          make_block-IsMadeFit c inner (count_new ctx b) ps nests
            (record { truthful = s.truthful; queued_push = s.queued_push })
            (same_stock b (count_new ctx b) refl refl h) in
        if-holds IsStockFit (ctx.peer d) (same_stock b (count_hit ctx b) refl refl h) (
          queue-IsStockFit (make_block ctx body d c inner (count_new ctx b)).1
            (make_block ctx body d c inner (count_new ctx b)).0 m.block m.stock)

    -- The builder's part of the invariant: its program and the blocks to be pushed.
    pub record IsFitted (b : Builder S) : Type 0 where
      pub refs : AllRefs IsSized b.instrs
      pub stock : IsStockFit b

    flush-IsFitted : (e : ℕ) (b : Builder S) → IsFitted b → IsFitted (flush body e b)
    unfolding flush
    flush-IsFitted e b h =
        if-holds IsFitted (ltb b.pos (min e (length body)))
          (record {
            refs = AllRefs-append IsSized b.instrs _ h.refs tt;
            stock = same_stock b _ refl refl h.stock;
          })
          h

    reference-IsFitted :
        (g : Group) (b : Builder S)
        → IsPlaced body g
        → IsBuilt content body b
        → IsFitted b
        → IsFitted (reference ctx body g.cand g.children b)
    unfolding reference put_ref count_ref
    reference-IsFitted g b p k h =
        let c : Cand = g.cand in
        let n : ℕ = length (slice c.span body) in
        let d : Digest = digest_of ctx.blake3 c.kind (slice c.span body) in
        let f : Builder S = flush body c.span.start b in
        let fb = flush-IsBuilt ctx content body names c.span.start b k in
        let ff : IsFitted f = flush-IsFitted c.span.start b h in
        let r : Builder S = offer ctx body d c g.children (count_ref ctx n f) in
        let s : IsStocked content (count_ref ctx n f) = record {
          truthful = fb.stocked.truthful;
          queued_push = fb.stocked.queued_push;
        } in
        let o =
          offer-IsOffered ctx content body names c g.children (count_ref ctx n f) p.inside
            (parts-IsOrdered body g.children p.parts) s in
        if-holds IsFitted (ltb n c.floor || ltb c.span.start b.pos) h (record {
          refs =
              AllRefs-append IsSized r.instrs (ref d n ∷ [])
                (subst (AllRefs IsSized) (sym o.same_instrs) ff.refs)
                (digest_of-IsSized c.kind c.span p.inside, tt);
          stock = same_stock r _ refl refl (
              offer-IsStockFit c g.children (count_ref ctx n f) p.parts p.nests s
                (same_stock f (count_ref ctx n f) refl refl ff.stock));
        })

    reference_all-IsFitted :
        (groups : List Group) (b : Builder S)
        → All (IsPlaced body) groups
        → IsBuilt content body b
        → IsFitted b
        → IsFitted (reference_all ctx body groups b)
    unfolding reference_all
    reference_all-IsFitted [] b ps k h = h
    reference_all-IsFitted (g ∷ gs) b (p, ps) k h =
        reference_all-IsFitted gs (reference ctx body g.cand g.children b) ps
          (reference-IsBuilt ctx content body names g.cand g.children b p.inside
            (parts-IsOrdered body g.children p.parts) k)
          (reference-IsFitted g b p k h)

    -- Every reference of the program has the length of its contents, and so has every one of a
    -- pushed block, which moreover is not to a JSON member; only JSON members have programs. No two
    -- pushed blocks have the same digest.
    pub record IsFitting (out : SplitOutput) : Type 0 where
      pub refs : AllRefs IsSized out.instrs
      pub blocks : All (IsFit ctx.blake3) out.to_push
      pub distinct : IsDistinct out.to_push

    pub split_groups-IsFitting :
        (groups : List Group) (b : Builder S) (out : SplitOutput)
        → All (IsPlaced body) groups
        → IsBuilt content body b
        → IsFitted b
        → split_groups ctx body groups b ≡ split out
        → IsFitting out
    unfolding split_groups seal
    split_groups-IsFitting groups b out ps k h e =
        let whole : Builder S = flush body (length body) (reference_all ctx body groups b) in
        let last : Builder S = flush body (length body) whole in
        let f : IsFitted last = flush-IsFitted (length body) whole (
          flush-IsFitted (length body) (reference_all ctx body groups b)
            (reference_all-IsFitted groups b ps k h)) in
        subst IsFitting (sym (finish-split ctx content body names whole out e)) (record {
          refs = AllRefs-normalize IsSized last.instrs f.refs;
          blocks = f.stock.fit;
          distinct = f.stock.distinct;
        })
