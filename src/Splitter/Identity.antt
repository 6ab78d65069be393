-- ===== src/Splitter/Identity.antt =====
-- The whole of a split: the program and the pushed blocks against the body
-- (crates/muka-split/src/splitter.rs).
use muka_ai_trim.Common.{
  subst, ℕ, ◌≤◌, ◌≡◌, refl, sym, ◌∙◌, arith, List, [], ◌∷◌, append-nil, false, ◌||◌, ok, length,
  take_of_ge, ltb, Bool-cases, inl, inr, All,
}
use muka_ai_trim.Digest.{Digest, digest_of}
use muka_ai_trim.Json.{slice, IsInside}
use muka_ai_trim.Policy.{Cand, Group}
use muka_ai_trim.Program.{Block}
use muka_ai_trim.Program.Meaning.{expand, expand-append}
use muka_ai_trim.Program.Normal.{expand-normalize}
use muka_ai_trim.Resolve.{Source, resolve}
use muka_ai_trim.Resolve.Sound.{IsFaithful, resolve-eq-expand}
use muka_ai_trim.Splitter.{
  Builder, Ctx, new_builder, SplitOutput, split, flush, count_hit, count_ref, count_new, offer,
  put_ref, make_block, reference, reference_all, seal, finish, split_groups, queue,
}
use muka_ai_trim.Splitter.Literals.{
  IsAt, flush-IsAt, flush-pos, push-flush, queued-flush, take-slice,
}
use muka_ai_trim.Splitter.Blocks.{
  IsTrue, Names, IsStocked, IsOrdered, queue-IsStocked, make_block-IsMade,
}

-- Both halves of the builder's invariant.
pub record IsBuilt {S : Type 0} (content : Digest → List ℕ) (body : List ℕ) (b : Builder S)
    : Type 0 where
  pub at : IsAt content body b
  pub stocked : IsStocked content b

-- The spans of a group lie in the body.
abbrev pub IsGroupOf : List ℕ → Group → Type 0
IsGroupOf body g = IsInside g.cand.span body × All IsOrdered g.children

module _ {S : Type 0} (ctx : Ctx S) (content : Digest → List ℕ) (body : List ℕ)
    (names : Names ctx.blake3 content body) where
  pub flush-IsBuilt :
      (e : ℕ) (b : Builder S) → IsBuilt content body b → IsBuilt content body (flush body e b)
  flush-IsBuilt e b h = record {
    at = flush-IsAt content body e b h.at;
    stocked = record {
      truthful = rw (push-flush content body e b) h.stocked.truthful;
      queued_push =
          rw (push-flush content body e b, queued-flush content body e b) h.stocked.queued_push;
    };
  }

  queue-instrs :
      (blk : Block) (b : Builder S)
      → ((queue ctx blk b).instrs ≡ b.instrs) × ((queue ctx blk b).pos ≡ b.pos)
  unfolding queue
  queue-instrs blk b = ground arith

  pub record IsOffered (b r : Builder S) : Type 0 where
    pub stocked : IsStocked content r
    pub same_instrs : r.instrs ≡ b.instrs
    same_pos : r.pos ≡ b.pos

  pub offer-IsOffered :
      (c : Cand) (inner : List Cand) (b : Builder S)
      → IsInside c.span body
      → All IsOrdered inner
      → IsStocked content b
      → IsOffered b (offer ctx body (digest_of ctx.blake3 c.kind (slice c.span body)) c inner b)
  unfolding offer count_hit count_new
  offer-IsOffered c inner b i os h =
      let d = digest_of ctx.blake3 c.kind (slice c.span body) in
      elim (Bool-cases (ctx.peer d)) [
        | inl hit ↦ rw hit (record {
          stocked = record { truthful = h.truthful; queued_push = h.queued_push };
          same_instrs = refl;
          same_pos = refl;
        })
        | inr new ↦
            let m =
              make_block-IsMade ctx content body names c i (count_new ctx b) inner os
                (counted b h) in
            let r = make_block ctx body d c inner (count_new ctx b) in
            let q = queue-instrs r.1 r.0 in
            rw new (record {
              stocked = queue-IsStocked ctx content body r.1 r.0 m.true_block m.stocked;
              same_instrs = q.0 ∙ m.same_instrs;
              same_pos = q.1 ∙ m.same_pos;
            })
      ]
    where
      counted : (b : Builder S) → IsStocked content b → IsStocked content (count_new ctx b)
      counted b h = record { truthful = h.truthful; queued_push = h.queued_push }

  put_ref-IsBuilt :
      (c : Cand) (b : Builder S)
      → IsInside c.span body
      → b.pos ≡ c.span.start
      → IsBuilt content body b
      → IsBuilt content body (
          put_ref ctx
            (digest_of ctx.blake3 c.kind (slice c.span body))
            (length (slice c.span body))
            c.span.end
            b)
  unfolding put_ref
  put_ref-IsBuilt c b i start h = record {
    at = record {
      inside = i.within;
      meaning =
          expand-append content b.instrs _
          ∙ rw (h.at.meaning, start, append-nil, names c.kind c.span i)
              (take-slice body c.span.start c.span.end i.ordered);
    };
    stocked = record { truthful = h.stocked.truthful; queued_push = h.stocked.queued_push };
  }

  pub reference-IsBuilt :
      (c : Cand) (inner : List Cand) (b : Builder S)
      → IsInside c.span body
      → All IsOrdered inner
      → IsBuilt content body b
      → IsBuilt content body (reference ctx body c inner b)
  unfolding reference count_ref
  reference-IsBuilt c inner b i os h =
      elim (Bool-cases (ltb (length (slice c.span body)) c.floor || ltb c.span.start b.pos)) [
        | inl skip ↦ rw skip h
        | inr keep ↦
            let f = flush body c.span.start b in
            let fb = flush-IsBuilt c.span.start b h in
            let n = length (slice c.span body) in
            let o =
              offer-IsOffered c inner (count_ref ctx n f) i os
                (record { truthful = fb.stocked.truthful; queued_push = fb.stocked.queued_push }) in
            let start =
              flush-pos content body c.span.start b (room keep)
                (omega (arith, i.ordered, i.within)) in
            rw keep (
              put_ref-IsBuilt c _ i (o.same_pos ∙ start) (record {
                at = record {
                  inside = rw o.same_pos fb.at.inside;
                  meaning = rw (o.same_instrs, o.same_pos) fb.at.meaning;
                };
                stocked = o.stocked;
              }))
      ]
    where
      room :
          (ltb (length (slice c.span body)) c.floor || ltb c.span.start b.pos) ≡ false
          → b.pos ≤ c.span.start
      room k = ground arith

  reference_all-IsBuilt :
      (groups : List Group) (b : Builder S)
      → All (IsGroupOf body) groups
      → IsBuilt content body b
      → IsBuilt content body (reference_all ctx body groups b)
  unfolding reference_all
  reference_all-IsBuilt [] b gs h = h
  reference_all-IsBuilt (g ∷ groups) b ((i, os), gs) h =
      reference_all-IsBuilt groups (reference ctx body g.cand g.children b) gs
        (reference-IsBuilt g.cand g.children b i os h)

  -- What a finished split promises: the program stands for the whole body, and every block to be
  -- pushed stands for the bytes that its digest names.
  pub record IsExact (out : SplitOutput) : Type 0 where
    pub identity : expand content out.instrs ≡ body
    pub truthful : All (IsTrue content) out.to_push

  seal-IsExact :
      (b : Builder S) → IsBuilt content body b → length body ≤ b.pos → IsExact (seal ctx body b)
  unfolding seal
  seal-IsExact b h full = record {
    identity = expand-normalize content b.instrs ∙ h.at.meaning ∙ take_of_ge b.pos body full;
    truthful = h.stocked.truthful;
  }

  pub finish-split :
      (b : Builder S) (out : SplitOutput)
      → finish ctx body b ≡ split out
      → out ≡ seal ctx body (flush body (length body) b)
  unfolding finish
  finish-split b out h = ground arith

  new_builder-IsBuilt : (local : S) → IsBuilt content body (new_builder body local)
  unfolding new_builder
  new_builder-IsBuilt local = record {
    at = record { inside = omega arith; meaning = refl };
    stocked = record { truthful = tt; queued_push = refl };
  }

  -- Whenever the splitter decides to split, over any groups of spans of the body and from the
  -- start of the body, the program stands for exactly the body, and every block to be pushed
  -- stands for the bytes that its digest names. `content` names each slice of the body: on these
  -- slices no two contents share a digest.
  pub split_groups-IsExact :
      (groups : List Group) (b : Builder S) (out : SplitOutput)
      → All (IsGroupOf body) groups
      → IsBuilt content body b
      → split_groups ctx body groups b ≡ split out
      → IsExact out
  unfolding split_groups
  split_groups-IsExact groups b out gs h e =
      let whole = flush body (length body) (reference_all ctx body groups b) in
      let f =
        flush-IsBuilt (length body) (reference_all ctx body groups b)
          (reference_all-IsBuilt groups b gs h) in
      let full = flush-pos content body (length body) whole f.at.inside (omega arith) in
      subst IsExact (sym (finish-split whole out e)) (
        seal-IsExact (flush body (length body) whole) (flush-IsBuilt (length body) whole f)
          (omega (arith, full)))

  -- A rebuilt request is the request: if a peer whose stored blocks all stand for the bytes that
  -- their digests name resolves the program of a split of `body`, under any limits, the result is
  -- `body`. The groups are any groups of spans of the body; on these slices no two contents share
  -- a digest.
  resolve-split_groups :
      (groups : List Group) (local : S) (out : SplitOutput) (store : Source) (max_out max_depth : ℕ)
      (res : List ℕ)
      → All (IsGroupOf body) groups
      → split_groups ctx body groups (new_builder body local) ≡ split out
      → IsFaithful content store
      → resolve store out.instrs max_out max_depth ≡ ok res
      → res ≡ body
  resolve-split_groups groups local out store max_out max_depth res gs e f r =
      let exact =
        split_groups-IsExact groups (new_builder body local) out gs (new_builder-IsBuilt local) e in
      resolve-eq-expand content store max_out max_depth f out.instrs res r ∙ exact.identity
