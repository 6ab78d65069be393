-- ===== src/Splitter/Delivered.antt =====
-- A whole split (`split_body` of crates/muka-split/src/splitter.rs), expanded by a peer that has what
-- was pushed.
use muka_ai_trim.Common.{
  ℕ, suc, ◌≤◌, ◌<◌, ◌^◌, ◌≡◌, ◌⊎◌, inl, inr, refl, sym, ap, ◌∙◌, subst, true, List, [], ◌∷◌, length,
  some, ok, All,
}
use muka_ai_trim.Digest.{Digest, BlockKind}
use muka_ai_trim.Program.{ref, Block}
use muka_ai_trim.Resolve.{Source, resolve}
use muka_ai_trim.Resolve.Complete.{CanResolve, resolve_complete}
use muka_ai_trim.Resolve.Sound.{IsFaithful}
use muka_ai_trim.Splitter.{Builder, Ctx, new_builder, SplitOutput, split}
use muka_ai_trim.Splitter.Blocks.{Names, IsTrue, digests}
use muka_ai_trim.Splitter.Body.{mark_structural, mark_cdc, split_body}
use muka_ai_trim.Splitter.Closed.{Covered}
use muka_ai_trim.Splitter.Fit.{Kinds, IsFit, IsFitted, IsFitting, split_groups-IsFitting}
use muka_ai_trim.Splitter.Opened.{IsThere, program-CanResolve}
use muka_ai_trim.Splitter.Refs.{InBlock}
use muka_ai_trim.Splitter.Whole.{
  split_body-CameFrom, marked-IsBuilt, split_body-IsExact, split_body-IsSelfContained,
}

-- The store has the block, or it has something under its digest that it can expand at that depth.
abbrev pub IsHeld : (Digest → List ℕ) → Source → ℕ → Block → Type 0
IsHeld content store depth b =
    (store b.digest ≡ some b)
    ⊎ CanResolve content store depth (ref b.digest (length (content b.digest)))

module _ {S : Type 0} (ctx : Ctx S) (content : Digest → List ℕ) (kind_of : Digest → BlockKind)
    (body : List ℕ) (names : Names ctx.blake3 content body)
    (kinds : Kinds ctx.blake3 kind_of body) where
  marked-IsFitted :
      (local : S) (b : Builder S)
      → (b ≡ mark_structural ctx body (new_builder body local))
        ⊎ (b ≡ mark_cdc ctx body (new_builder body local))
      → IsFitted content kind_of ctx body names kinds b
  unfolding new_builder
  marked-IsFitted local b (inl s) =
      subst (IsFitted content kind_of ctx body names kinds) (sym s)
        (record { refs = tt; stock = record { fit = tt; queued_push = refl; distinct = tt } })
  marked-IsFitted local b (inr s) =
      subst (IsFitted content kind_of ctx body names kinds) (sym s)
        (record { refs = tt; stock = record { fit = tt; queued_push = refl; distinct = tt } })

  -- Whenever `split_body` decides to split, every reference has the length of the contents that
  -- its digest names, and blocks nest one level deep at most: only JSON members have programs, and
  -- none of these programs refers to a JSON member. On the slices of this body no two contents and
  -- no two kinds share a digest.
  pub split_body-IsFitting :
      (local : S) (out : SplitOutput)
      → split_body ctx body local ≡ split out
      → IsFitting content kind_of ctx body names kinds out
  split_body-IsFitting local out e =
      let c = split_body-CameFrom ctx body local out e in
      split_groups-IsFitting content kind_of ctx body names kinds c.groups c.start out c.inside
        (marked-IsBuilt ctx content body names local c.start c.is_new)
        (marked-IsFitted local c.start c.is_new) c.did

  module _ (store : Source) (pushed : List Block) (room : ℕ) where
    All-IsThere :
        (bs : List Block)
        → All (IsHeld content store (suc room)) bs
        → All (IsTrue content) bs
        → All (IsFit content kind_of ctx.blake3) bs
        → All (InBlock (Covered ctx (digests pushed))) bs
        → All (IsThere ctx content kind_of store pushed room) bs
    All-IsThere [] a b c d = tt
    All-IsThere (x ∷ bs) (a, at) (b, bt) (c, ct) (d, dt) =
        (record { held = a; true_block = b; fit = c; in_block = d }, All-IsThere bs at bt ct dt)

  -- A split reaches its peer whole: if `split_body` splits a body, and the peer's store has every
  -- pushed block or can expand what it has in its place, can expand every digest that the splitter
  -- took it to have, both to a depth of `room` and one, and keeps under each digest only what the
  -- digest names, then `resolve` with one more level of depth and room for the body returns exactly
  -- the body. On the slices of this body no
  -- two contents and no two kinds share a digest.
  pub resolve-split_body_complete :
      (local : S) (out : SplitOutput) (store : Source) (max_out room : ℕ)
      → split_body ctx body local ≡ split out
      → IsFaithful content store
      → ((d : Digest)
          → ctx.peer d ≡ true
          → CanResolve content store (suc room) (ref d (length (content d))))
      → All (IsHeld content store (suc room)) out.to_push
      → length body ≤ max_out
      → max_out < 2 ^ 64
      → resolve store out.instrs max_out (suc (suc room)) ≡ ok body
  resolve-split_body_complete local out store max_out room e faithful kept held fits small =
      let exact = split_body-IsExact ctx content body names local out e in
      let closed = split_body-IsSelfContained ctx body local out e in
      let fitting = split_body-IsFitting local out e in
      let there =
        All-IsThere store out.to_push room out.to_push held exact.truthful fitting.blocks
          closed.blocks in
      let can =
        program-CanResolve ctx content kind_of store out.to_push room kept there out.instrs
          fitting.refs closed.refs in
      resolve_complete content store max_out (suc (suc room)) small faithful out.instrs can
        (subst (λ (b : List ℕ). length b ≤ max_out) (sym exact.identity) fits)
      ∙ ap ok exact.identity
