-- ===== src/Splitter/Closed.antt =====
-- Every reference of a split is at the peer or among the pushed blocks
-- (crates/muka-split/src/splitter.rs).
use muka_ai_trim.Common.{
  ℕ, ◌≡◌, ◌⊎◌, inl, inr, refl, sym, subst, Bool, true, false, ◌||◌, List, [], ◌∷◌, ◌++◌, length,
  ltb, ◌==◌, if◌then◌else◌, if-holds, All, All-append, Bool-cases, min, arith,
}
use muka_ai_trim.Digest.{Digest, BlockKind, digest_of}
use muka_ai_trim.Json.{slice, span_len}
use muka_ai_trim.Policy.{Cand, Group}
use muka_ai_trim.Program.{Instr, lit, ref, Block, raw_block, program_block}
use muka_ai_trim.Resolve.{contains, is_empty}
use muka_ai_trim.Resolve.Missing.{contains-append_left, contains-append_last}
use muka_ai_trim.Splitter.{
  SplitOutput, split, Builder, Ctx, flush, queue, Nest, nest_child, nest_children, close_nest,
  shape_block, make_block, count_hit, count_nested, count_ref, count_new, offer, put_ref, reference,
  reference_all, seal, finish, split_groups,
}
use muka_ai_trim.Splitter.Blocks.{digests, digests-append}
use muka_ai_trim.Splitter.Refs.{
  InRefs, InBlock, InRefs-append, InRefs-normalize, InRefs-map, InBlocks-map,
}

module _ {S : Type 0} (ctx : Ctx S) where
  -- At the peer, or to be pushed.
  abbrev pub Covered : List Digest → Digest → Type 0
  Covered queued d = (ctx.peer d ≡ true) ⊎ (contains queued d ≡ true)

  pub record IsClosed (b : Builder S) : Type 0 where
    pub refs : InRefs (Covered b.queued) b.instrs
    pub blocks : All (InBlock (Covered b.queued)) b.push
    pub queued_push : b.queued ≡ digests b.push

  abbrev Grows : Builder S → Builder S → Type 0
  Grows b r = (d : Digest) → contains b.queued d ≡ true → contains r.queued d ≡ true

  Covered-Grows :
      (b r : Builder S) → Grows b r → (d : Digest) → Covered b.queued d → Covered r.queued d
  Covered-Grows b r g d (inl p) = inl p
  Covered-Grows b r g d (inr q) = inr (g d q)

  -- A step that queues blocks and leaves the program alone.
  record IsGrown (b r : Builder S) : Type 0 where
    closed : IsClosed r
    grows : Grows b r

  record IsQueued (b r : Builder S) (d : Digest) : Type 0 where
    grown : IsGrown b r
    there : contains r.queued d ≡ true

  queue-IsQueued :
      (blk : Block) (b : Builder S)
      → IsClosed b
      → InBlock (Covered b.queued) blk
      → IsQueued b (queue ctx blk b) blk.digest
  unfolding queue
  queue-IsQueued blk b h k = elim (Bool-cases (contains b.queued blk.digest)) [
    | inl old ↦ rw old (record { grown = record { closed = h; grows = λ d q. q }; there = old })
    | inr new ↦
        let more : List Digest = b.queued ++ (blk.digest ∷ []) in
        let grows : (d : Digest) → contains b.queued d ≡ true → contains more d ≡ true =
          λ d q. contains-append_left b.queued (blk.digest ∷ []) d q in
        let cover : (d : Digest) → Covered b.queued d → Covered more d =
          λ d c. elim c [ inl p ↦ inl p | inr q ↦ inr (grows d q) ] in
        rw new (record {
          grown = record {
            closed = record {
              refs = InRefs-map (Covered b.queued) (Covered more) cover b.instrs h.refs;
              blocks =
                  InBlocks-map (Covered b.queued) (Covered more) cover (b.push ++ (blk ∷ []))
                    (All-append (InBlock (Covered b.queued)) b.push (blk ∷ []) h.blocks (k, tt));
              queued_push = rw (digests-append, h.queued_push);
            };
            grows = grows;
          };
          there = contains-append_last b.queued blk.digest;
        })
  ]

  count_nested-IsClosed : (b : Builder S) → IsClosed b → IsClosed (count_nested ctx b)
  unfolding count_nested
  count_nested-IsClosed b h = record {
    refs = h.refs;
    blocks = h.blocks;
    queued_push = h.queued_push;
  }

  count_nested-keeps_queued :
      (b : Builder S) (d : Digest)
      → contains b.queued d ≡ true
      → contains (count_nested ctx b).queued d ≡ true
  unfolding count_nested
  count_nested-keeps_queued b d h = h

  Covered-count_nested :
      (b : Builder S) (d : Digest) → Covered b.queued d → Covered (count_nested ctx b).queued d
  unfolding count_nested
  Covered-count_nested b d h = h

  -- A step that covers the digest `d`.
  record IsOffered (b r : Builder S) (d : Digest) : Type 0 where
    grown : IsGrown b r
    covered : Covered r.queued d

  queue_new-IsOffered :
      (d : Digest) (blk : Block) (b : Builder S)
      → IsClosed b
      → InBlock (Covered b.queued) blk
      → blk.digest ≡ d
      → IsOffered b (if ctx.peer d then count_hit ctx b else queue ctx blk b) d
  unfolding count_hit
  queue_new-IsOffered d blk b h k same = elim (Bool-cases (ctx.peer d)) [
    | inl hit ↦ rw hit (record {
      grown = record {
        closed = record { refs = h.refs; blocks = h.blocks; queued_push = h.queued_push };
        grows = λ e q. q;
      };
      covered = inl hit;
    })
    | inr new ↦
        let q = queue-IsQueued blk b h k in
        rw new (record {
          grown = q.grown;
          covered =
              inr (subst (λ (e : Digest). contains (queue ctx blk b).queued e ≡ true) same q.there);
        })
  ]

  -- The nested program of a block under construction refers to covered blocks only.
  record IsNestClosed (b₀ : Builder S) (n : Nest ctx) : Type 0 where
    grown : IsGrown b₀ n.builder
    nested : InRefs (Covered n.builder.queued) n.nested

  gap_InRefs :
      (P : Digest → Type 0) (t : Bool) (b : List ℕ) → InRefs P (if t then lit b ∷ [] else [])
  gap_InRefs P true b = tt
  gap_InRefs P false b = tt

  nest_child-IsNestClosed :
      (body : List ℕ) (c ch : Cand) (b₀ : Builder S) (n : Nest ctx)
      → IsNestClosed b₀ n
      → IsNestClosed b₀ (nest_child ctx body c ch n)
  unfolding nest_child raw_block
  nest_child-IsNestClosed body c ch b₀ n h =
      let cd : Digest = digest_of ctx.blake3 ch.kind (slice ch.span body) in
      let blk : Block = raw_block cd ch.kind (slice ch.span body) in
      let b : Builder S = count_nested ctx n.builder in
      let r : Builder S = if ctx.peer cd then count_hit ctx b else queue ctx blk b in
      let o : IsOffered b r cd =
        queue_new-IsOffered cd blk b (count_nested-IsClosed n.builder h.grown.closed) tt refl in
      if-holds (IsNestClosed b₀)
        (ltb ch.span.start n.at || (ltb c.span.end ch.span.end || ltb (span_len ch.span) ch.floor))
        h
        (record {
          grown = record {
            closed = o.grown.closed;
            grows =
                λ d q. o.grown.grows d (count_nested-keeps_queued n.builder d (h.grown.grows d q));
          };
          nested =
              InRefs-append (Covered r.queued) n.nested _
                (InRefs-map (Covered n.builder.queued) (Covered r.queued)
                  (λ d q. Covered-Grows b r o.grown.grows d (Covered-count_nested n.builder d q))
                  n.nested h.nested)
                (InRefs-append (Covered r.queued)
                  (if ltb n.at ch.span.start
                    then lit (slice (record { start = n.at; end = ch.span.start }) body) ∷ []
                    else [])
                  (ref cd (span_len ch.span) ∷ [])
                  (gap_InRefs (Covered r.queued) (ltb n.at ch.span.start)
                    (slice (record { start = n.at; end = ch.span.start }) body))
                  (o.covered, tt));
        })

  nest_children-IsNestClosed :
      (body : List ℕ) (c : Cand) (inner : List Cand) (b₀ : Builder S) (n : Nest ctx)
      → IsNestClosed b₀ n
      → IsNestClosed b₀ (nest_children ctx body c inner n)
  unfolding nest_children
  nest_children-IsNestClosed body c [] b₀ n h = h
  nest_children-IsNestClosed body c (ch ∷ inner) b₀ n h =
      nest_children-IsNestClosed body c inner b₀ (nest_child ctx body c ch n)
        (nest_child-IsNestClosed body c ch b₀ n h)

  close_nest-InRefs :
      (body : List ℕ) (c : Cand) (n : Nest ctx) (P : Digest → Type 0)
      → InRefs P n.nested
      → InRefs P (close_nest ctx body c n)
  unfolding close_nest
  close_nest-InRefs body c n P h =
      InRefs-normalize P _ (InRefs-append P n.nested _ h (gap_InRefs P (ltb n.at c.span.end) _))

  shape_block-InBlock :
      (d : Digest) (kind : BlockKind) (span_bytes : List ℕ) (is : List Instr) (P : Digest → Type 0)
      → InRefs P is
      → InBlock P (shape_block ctx d kind span_bytes is)
        × ((shape_block ctx d kind span_bytes is).digest ≡ d)
  unfolding shape_block raw_block program_block
  shape_block-InBlock d kind span_bytes [] P h = (tt, refl)
  shape_block-InBlock d kind span_bytes (lit b ∷ []) P h =
      elim (Bool-cases (length b == length span_bytes)) [
        | inl same ↦ rw same (tt, refl)
        | inr other ↦ rw other (tt, refl)
      ]
  shape_block-InBlock d kind span_bytes (lit b ∷ i ∷ is) P h = (h, refl)
  shape_block-InBlock d kind span_bytes (ref e n ∷ is) P h = (h, refl)

  record IsMade (b : Builder S) (d : Digest) (r : Builder S × Block) : Type 0 where
    grown : IsGrown b r.0
    in_block : InBlock (Covered r.0.queued) r.1
    named : r.1.digest ≡ d

  make_block-IsMade :
      (body : List ℕ) (d : Digest) (c : Cand) (inner : List Cand) (b : Builder S)
      → IsClosed b
      → IsMade b d (make_block ctx body d c inner b)
  unfolding make_block raw_block
  make_block-IsMade body d c inner b h =
      let start : Nest ctx = record { builder = b; nested = []; at = c.span.start } in
      let n : Nest ctx = nest_children ctx body c inner start in
      let g : IsNestClosed b n =
        nest_children-IsNestClosed body c inner b start
          (record { grown = record { closed = h; grows = λ e q. q }; nested = tt }) in
      let made =
        shape_block-InBlock d c.kind (slice c.span body) (close_nest ctx body c n)
          (Covered n.builder.queued)
          (close_nest-InRefs body c n (Covered n.builder.queued) g.nested) in
      if-holds (IsMade b d) (is_empty inner)
        (record { grown = record { closed = h; grows = λ e q. q }; in_block = tt; named = refl })
        (record { grown = g.grown; in_block = made.0; named = made.1 })

  offer-IsOffered :
      (body : List ℕ) (d : Digest) (c : Cand) (inner : List Cand) (b : Builder S)
      → IsClosed b
      → IsOffered b (offer ctx body d c inner b) d
  unfolding offer count_hit count_new
  offer-IsOffered body d c inner b h = elim (Bool-cases (ctx.peer d)) [
    | inl hit ↦ rw hit (record {
      grown = record {
        closed = record { refs = h.refs; blocks = h.blocks; queued_push = h.queued_push };
        grows = λ e q. q;
      };
      covered = inl hit;
    })
    | inr new ↦
        let b' : Builder S = count_new ctx b in
        let r : Builder S × Block = make_block ctx body d c inner b' in
        let m : IsMade b' d r =
          make_block-IsMade body d c inner b'
            (record { refs = h.refs; blocks = h.blocks; queued_push = h.queued_push }) in
        let q = queue-IsQueued r.1 r.0 m.grown.closed m.in_block in
        rw new (record {
          grown = record {
            closed = q.grown.closed;
            grows = λ e k. q.grown.grows e (m.grown.grows e k);
          };
          covered = inr (
              subst (λ (e : Digest). contains (queue ctx r.1 r.0).queued e ≡ true) m.named q.there);
        })
  ]

  flush-IsClosed : (body : List ℕ) (e : ℕ) (b : Builder S) → IsClosed b → IsClosed (flush body e b)
  unfolding flush
  flush-IsClosed body e b h =
      if-holds IsClosed (ltb b.pos (min e (length body)))
        (record {
          refs = InRefs-append (Covered b.queued) b.instrs _ h.refs tt;
          blocks = h.blocks;
          queued_push = h.queued_push;
        })
        h

  reference-IsClosed :
      (body : List ℕ) (c : Cand) (inner : List Cand) (b : Builder S)
      → IsClosed b
      → IsClosed (reference ctx body c inner b)
  unfolding reference put_ref count_ref
  reference-IsClosed body c inner b h =
      let n : ℕ = length (slice c.span body) in
      let d : Digest = digest_of ctx.blake3 c.kind (slice c.span body) in
      let f : Builder S = flush body c.span.start b in
      let k : IsClosed f = flush-IsClosed body c.span.start b h in
      let o =
        offer-IsOffered body d c inner (count_ref ctx n f)
          (record { refs = k.refs; blocks = k.blocks; queued_push = k.queued_push }) in
      if-holds IsClosed (ltb n c.floor || ltb c.span.start b.pos) h (record {
        refs =
            InRefs-append (Covered (offer ctx body d c inner (count_ref ctx n f)).queued)
              (offer ctx body d c inner (count_ref ctx n f)).instrs (ref d n ∷ [])
              o.grown.closed.refs (o.covered, tt);
        blocks = o.grown.closed.blocks;
        queued_push = o.grown.closed.queued_push;
      })

  reference_all-IsClosed :
      (body : List ℕ) (groups : List Group) (b : Builder S)
      → IsClosed b
      → IsClosed (reference_all ctx body groups b)
  unfolding reference_all
  reference_all-IsClosed body [] b h = h
  reference_all-IsClosed body (g ∷ gs) b h =
      reference_all-IsClosed body gs (reference ctx body g.cand g.children b)
        (reference-IsClosed body g.cand g.children b h)

  -- Every reference of the program and of the pushed blocks is at the peer or among the pushed.
  pub record IsSelfContained (out : SplitOutput) : Type 0 where
    pub refs : InRefs (Covered (digests out.to_push)) out.instrs
    pub blocks : All (InBlock (Covered (digests out.to_push))) out.to_push

  pub split_groups-IsSelfContained :
      (body : List ℕ) (groups : List Group) (b : Builder S) (out : SplitOutput)
      → IsClosed b
      → split_groups ctx body groups b ≡ split out
      → IsSelfContained out
  unfolding split_groups finish seal
  split_groups-IsSelfContained body groups b out h e =
      let whole : Builder S = flush body (length body) (reference_all ctx body groups b) in
      let last : Builder S = flush body (length body) whole in
      let k : IsClosed last =
        flush-IsClosed body (length body) whole
          (flush-IsClosed body (length body) _ (reference_all-IsClosed body groups b h)) in
      let sealed : out ≡ seal ctx body last = ground arith in
      subst IsSelfContained (sym sealed) (record {
        refs =
            InRefs-normalize (Covered (digests last.push)) last.instrs
              (subst (λ (q : List Digest). InRefs (Covered q) last.instrs) k.queued_push k.refs);
        blocks =
            subst (λ (q : List Digest). All (InBlock (Covered q)) last.push) k.queued_push k.blocks;
      })
