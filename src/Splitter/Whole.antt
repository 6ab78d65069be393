-- ===== src/Splitter/Whole.antt =====
-- `split_body` of crates/muka-split/src/splitter.rs against the body it is given, whatever path it
-- takes.
use muka_ai_trim.Common.{
  ℕ, ◌≡◌, ◌⊎◌, refl, sym, subst, ◌∙◌, arith, Bool-cases, not, List, ok, All, inl, inr, zero, suc,
  Bool, true, ◌||◌, [], ◌∷◌,
}
use muka_ai_trim.Digest.{Digest}
use muka_ai_trim.Policy.{Group}
use muka_ai_trim.Program.{Instr, lit, ref}
use muka_ai_trim.Resolve.{
  Source, resolve, is_empty, contains, refs_rev, missing_loop, missing_blocks,
}
use muka_ai_trim.Resolve.Missing.{or-true_right}
use muka_ai_trim.Resolve.Sound.{IsFaithful, resolve-eq-expand}
use muka_ai_trim.Splitter.{Builder, Ctx, new_builder, SplitOutput, split, split_groups}
use muka_ai_trim.Splitter.Blocks.{Names}
use muka_ai_trim.Splitter.Blocks.{digests}
use muka_ai_trim.Splitter.Closed.{IsClosed, Covered, IsSelfContained, split_groups-IsSelfContained}
use muka_ai_trim.Splitter.Placed.{IsPlaced, IsPlaced-IsGroupOf}
use muka_ai_trim.Splitter.Refs.{InRefs, InRefs-map}
use muka_ai_trim.Splitter.Body.{
  body_groups, chunk_groups, mark_structural, mark_cdc, split_found, split_body,
  chunk_groups-IsPlaced, body_groups-IsPlaced,
}
use muka_ai_trim.Splitter.Identity.{IsBuilt, IsExact, split_groups-IsExact}

module _ {S : Type 0} (ctx : Ctx S) (body : List ℕ) (local : S) where
  -- A split of the body is a split of some groups of its spans, by a builder that starts at the
  -- body's first byte.
  pub record CameFrom (out : SplitOutput) : Type 0 where
    pub groups : List Group
    pub start : Builder S
    pub inside : All (IsPlaced body) groups
    pub is_new :
        (start ≡ mark_structural ctx body (new_builder body local))
        ⊎ (start ≡ mark_cdc ctx body (new_builder body local))
    pub did : split_groups ctx body groups start ≡ split out

  split_found-CameFrom :
      (groups : List Group) (out : SplitOutput)
      → All (IsPlaced body) groups
      → split_found ctx body groups local ≡ split out
      → CameFrom out
  unfolding split_found
  split_found-CameFrom groups out gs e = elim (Bool-cases (is_empty groups)) [
    | inl none ↦ elim (Bool-cases (not ctx.policy.cdc_fallback)) [
      | inl off ↦ ground arith
      | inr on ↦ record {
        groups = chunk_groups ctx body;
        start = mark_cdc ctx body (new_builder body local);
        inside = chunk_groups-IsPlaced ctx body;
        is_new = inr refl;
        did = ground arith;
      }
    ]
    | inr some ↦ record {
      groups = groups;
      start = mark_structural ctx body (new_builder body local);
      inside = gs;
      is_new = inl refl;
      did = ground arith;
    }
  ]

  pub split_body-CameFrom :
      (out : SplitOutput) → split_body ctx body local ≡ split out → CameFrom out
  unfolding split_body
  split_body-CameFrom out e =
      split_found-CameFrom (body_groups ctx body) out (body_groups-IsPlaced ctx body) (ground arith)

module _ {S : Type 0} (ctx : Ctx S) (content : Digest → List ℕ) (body : List ℕ)
    (names : Names ctx.blake3 content body) where
  pub marked-IsBuilt :
      (local : S) (b : Builder S)
      → (b ≡ mark_structural ctx body (new_builder body local))
        ⊎ (b ≡ mark_cdc ctx body (new_builder body local))
      → IsBuilt content body b
  unfolding new_builder
  marked-IsBuilt local b (inl s) = subst (IsBuilt content body) (sym s) (record {
    at = record { inside = omega arith; meaning = refl };
    stocked = record { truthful = tt; queued_push = refl };
  })
  marked-IsBuilt local b (inr s) = subst (IsBuilt content body) (sym s) (record {
    at = record { inside = omega arith; meaning = refl };
    stocked = record { truthful = tt; queued_push = refl };
  })

  -- Whenever `split_body` decides to split, by the JSON structure or by content-defined chunks, the
  -- program stands for exactly the body, and every block to be pushed stands for the bytes that its
  -- digest names, if on the slices of this body no two contents share a digest.
  pub split_body-IsExact :
      (local : S) (out : SplitOutput)
      → split_body ctx body local ≡ split out
      → IsExact ctx content body names out
  split_body-IsExact local out e =
      let c = split_body-CameFrom ctx body local out e in
      split_groups-IsExact ctx content body names c.groups c.start out
        (IsPlaced-IsGroupOf body c.groups c.inside) (marked-IsBuilt local c.start c.is_new) c.did

  -- A rebuilt request is the request: if `split_body` splits a body, and a peer whose stored blocks
  -- all stand for the bytes that their digests name resolves the program, under any limits, the
  -- result is the body, if on the slices of this body no two contents share a digest.
  pub resolve-split_body :
      (local : S) (out : SplitOutput) (store : Source) (max_out max_depth : ℕ) (res : List ℕ)
      → split_body ctx body local ≡ split out
      → IsFaithful content store
      → resolve store out.instrs max_out max_depth ≡ ok res
      → res ≡ body
  resolve-split_body local out store max_out max_depth res e f r =
      resolve-eq-expand content store max_out max_depth f out.instrs res r
      ∙ (split_body-IsExact local out e).identity

-- Only references to digests that the peer has are on the stack: nothing is missing.
missing_loop-present :
    (store : Source) (has : Digest → Bool) (budget : ℕ) (seen out stack : List Digest)
    → All (λ d. has d ≡ true) stack
    → missing_loop store has budget seen out stack ≡ out
unfolding missing_loop
missing_loop-present store has budget seen out [] h = refl
missing_loop-present store has zero seen out (d ∷ stack) (p, h) =
    let met : (contains seen d || has d) ≡ true = or-true_right _ _ p in
    rw (met, missing_loop) (missing_loop-present store has zero seen out stack h)
missing_loop-present store has (suc budget) seen out (d ∷ stack) (p, h) =
    let met : (contains seen d || has d) ≡ true = or-true_right _ _ p in
    rw (met, missing_loop) (missing_loop-present store has (suc budget) seen out stack h)

refs_rev-All :
    (P : Digest → Type 0) (is : List Instr) (stack : List Digest)
    → InRefs P is
    → All P stack
    → All P (refs_rev is stack)
unfolding refs_rev
refs_rev-All P [] stack h k = k
refs_rev-All P (lit b ∷ is) stack h k = refs_rev-All P is stack h k
refs_rev-All P (ref d n ∷ is) stack (p, h) k = refs_rev-All P is (d ∷ stack) h (p, k)

module _ {S : Type 0} (ctx : Ctx S) (body : List ℕ) where
  marked-IsClosed :
      (local : S) (b : Builder S)
      → (b ≡ mark_structural ctx body (new_builder body local))
        ⊎ (b ≡ mark_cdc ctx body (new_builder body local))
      → IsClosed ctx b
  unfolding new_builder
  marked-IsClosed local b (inl s) =
      subst (IsClosed ctx) (sym s) (record { refs = tt; blocks = tt; queued_push = refl })
  marked-IsClosed local b (inr s) =
      subst (IsClosed ctx) (sym s) (record { refs = tt; blocks = tt; queued_push = refl })

  -- Whenever `split_body` decides to split, every digest that the program refers to, and every
  -- digest that a pushed block refers to, is one that the peer is known to have or the digest of a
  -- pushed block.
  pub split_body-IsSelfContained :
      (local : S) (out : SplitOutput)
      → split_body ctx body local ≡ split out
      → IsSelfContained ctx out
  split_body-IsSelfContained local out e =
      let c = split_body-CameFrom ctx body local out e in
      split_groups-IsSelfContained ctx body c.groups c.start out
        (marked-IsClosed local c.start c.is_new) c.did

  -- No repair for a peer that has what it announced: if `split_body` splits a body, and the peer
  -- has every digest that the splitter took it to have and every block that was pushed, then
  -- `missing_blocks` asks for none of the program's blocks, whatever its limit.
  pub missing_blocks-split_body :
      (local : S) (out : SplitOutput) (store : Source) (has : Digest → Bool) (limit : ℕ)
      → split_body ctx body local ≡ split out
      → ((d : Digest) → ctx.peer d ≡ true → has d ≡ true)
      → ((d : Digest) → contains (digests out.to_push) d ≡ true → has d ≡ true)
      → missing_blocks store has out.instrs limit ≡ []
  unfolding missing_blocks
  missing_blocks-split_body local out store has limit e kept pushed =
      missing_loop-present store has limit [] [] (refs_rev out.instrs []) (
        refs_rev-All (λ d. has d ≡ true) out.instrs []
          (InRefs-map (Covered ctx (digests out.to_push)) (λ d. has d ≡ true)
            (λ d c. elim c [ inl p ↦ kept d p | inr q ↦ pushed d q ]) out.instrs
            (split_body-IsSelfContained local out e).refs)
          tt)
