-- ===== src/Splitter/Opened.antt =====
-- A peer that has what a split took it to have, and what was pushed, can expand the program
-- (crates/muka-split/src/splitter.rs and `resolve` of program.rs).
use muka_ai_trim.Common.{
  ℕ, zero, suc, ◌≡◌, ◌⊎◌, inl, inr, sym, ap, ◌∙◌, subst, arith, true, List, [], ◌∷◌, length, All,
  bytes_eq, bytes_eq_iff, Bool-cases, some,
}
use muka_ai_trim.Digest.{Digest, BlockKind}
use muka_ai_trim.Program.{Instr, lit, ref, BlockBody, bytes, program, Block}
use muka_ai_trim.Program.Meaning.{body_bytes}
use muka_ai_trim.Resolve.{Source, contains}
use muka_ai_trim.Resolve.Complete.{CanOpen, CanResolve}
use muka_ai_trim.Splitter.{Ctx}
use muka_ai_trim.Splitter.Blocks.{IsTrue, digests}
use muka_ai_trim.Splitter.Closed.{Covered}
use muka_ai_trim.Splitter.Fit.{IsSized, IsLeaf, HasFit, IsFit}
use muka_ai_trim.Splitter.Refs.{AllRefs, InRefs, InBody, InBlock}

pub named_block :
    (P : Block → Type 0) (bs : List Block) (d : Digest)
    → All P bs
    → contains (digests bs) d ≡ true
    → (b : Block) × P b × (b.digest ≡ d)
unfolding contains
named_block P [] d h e = cc
named_block P (b ∷ bs) d (h, hs) e = elim (Bool-cases (bytes_eq b.digest d)) [
  | inl same ↦ (b, h, (bytes_eq_iff b.digest d).0 same)
  | inr other ↦ named_block P bs d hs (rw other at e)
]

All-map :
    {P Q : Instr → Type 0} → ((i : Instr) → P i → Q i) → (is : List Instr) → All P is → All Q is
All-map step [] h = tt
All-map step (i ∷ is) (h, hs) = (step i h, All-map step is hs)

module _ (content : Digest → List ℕ) (store : Source) where
  -- What can be expanded can be expanded with more room.
  CanResolve-suc :
      (room : ℕ) (i : Instr)
      → CanResolve content store room i
      → CanResolve content store (suc room) i
  CanResolve-suc room (lit b) h = tt
  CanResolve-suc zero (ref d n) h = absurd h
  CanResolve-suc (suc room) (ref d n) (b, found, len, le, opens) =
      (b, found, len, le, more b.body opens (λ i h. CanResolve-suc room i h))
    where
      more :
          (x : BlockBody)
          → CanOpen content store (CanResolve content store room) x n
          → ((i : Instr) → CanResolve content store room i → CanResolve content store (suc room) i)
          → CanOpen content store (CanResolve content store (suc room)) x n
      more (bytes x) h step = h
      more (program p) (some_p, h) step = (some_p, All-map step p h)

module _ {S : Type 0} (ctx : Ctx S) (content : Digest → List ℕ) (kind_of : Digest → BlockKind)
    (store : Source) (pushed : List Block) (room : ℕ) where
  -- A pushed block, as the split promises it. The peer has it, or has had something under its
  -- digest that it can expand.
  pub record IsThere (b : Block) : Type 0 where
    pub held :
        (store b.digest ≡ some b)
        ⊎ CanResolve content store (suc room) (ref b.digest (length (content b.digest)))
    pub true_block : IsTrue content b
    pub fit : IsFit content kind_of ctx.blake3 b
    pub in_block : InBlock (Covered ctx (digests pushed)) b

  module _
      (kept : (d : Digest)
        → ctx.peer d ≡ true
        → CanResolve content store (suc room) (ref d (length (content d))))
      (there : All IsThere pushed) where
    open_leaf :
        (x : BlockBody) (k : BlockKind) (d : Digest) (n : ℕ)
        → HasFit content kind_of ctx.blake3 k d x
        → body_bytes content x ≡ content d
        → IsLeaf content kind_of d n
        → CanOpen content store (CanResolve content store room) x n
    open_leaf (bytes x) k d n f stands (size, part) = ap length stands ∙ sym size
    open_leaf (program p) k d n (_, _, a_member) stands (size, part) = absurd (part a_member)

    kept_ref :
        (d : Digest) (n : ℕ)
        → ctx.peer d ≡ true
        → n ≡ length (content d)
        → CanResolve content store (suc room) (ref d n)
    kept_ref d n p size =
        subst (λ m. CanResolve content store (suc room) (ref d m)) (sym size) (kept d p)

    -- A pushed block can be expanded at a depth where its body can.
    there-CanResolve :
        (level : ℕ) (b : Block) (n : ℕ)
        → IsThere b
        → n ≡ length (content b.digest)
        → CanOpen content store (CanResolve content store level) b.body n
        → (CanResolve content store (suc room) (ref b.digest n)
            → CanResolve content store (suc level) (ref b.digest n))
        → CanResolve content store (suc level) (ref b.digest n)
    there-CanResolve level b n h size opens older = elim h.held [
      | inl found ↦ (b, found, h.true_block.sized ∙ sym size, omega (arith, size), opens)
      | inr can ↦
          older (subst (λ m. CanResolve content store (suc room) (ref b.digest m)) (sym size) can)
    ]

    leaf-CanResolve :
        (d : Digest) (n : ℕ)
        → IsLeaf content kind_of d n
        → Covered ctx (digests pushed) d
        → CanResolve content store (suc room) (ref d n)
    leaf-CanResolve d n leaf (inl p) = kept_ref d n p leaf.0
    leaf-CanResolve d n leaf (inr q) =
        let (b, h, same) = named_block IsThere pushed d there q in
        let leaf' : IsLeaf content kind_of b.digest n =
          subst (λ e. IsLeaf content kind_of e n) (sym same) leaf in
        subst (λ e. CanResolve content store (suc room) (ref e n)) same
          (there-CanResolve room b n h leaf'.0
            (open_leaf b.body b.kind b.digest n h.fit h.true_block.stands leaf') (λ can. can))

    leaves-CanResolve :
        (p : List Instr)
        → AllRefs (IsLeaf content kind_of) p
        → InRefs (Covered ctx (digests pushed)) p
        → All (CanResolve content store (suc room)) p
    leaves-CanResolve [] f c = tt
    leaves-CanResolve (lit b ∷ p) f c = (tt, leaves-CanResolve p f c)
    leaves-CanResolve (ref d n ∷ p) (f, fs) (c, cs) =
        (leaf-CanResolve d n f c, leaves-CanResolve p fs cs)

    open_top :
        (x : BlockBody) (k : BlockKind) (d : Digest) (n : ℕ)
        → HasFit content kind_of ctx.blake3 k d x
        → InBody (Covered ctx (digests pushed)) x
        → body_bytes content x ≡ content d
        → n ≡ length (content d)
        → CanOpen content store (CanResolve content store (suc room)) x n
    open_top (bytes x) k d n f c stands size = ap length stands ∙ sym size
    open_top (program p) k d n (some_p, f, _) c stands size = (some_p, leaves-CanResolve p f c)

    top-CanResolve :
        (d : Digest) (n : ℕ)
        → IsSized content kind_of d n
        → Covered ctx (digests pushed) d
        → CanResolve content store (suc (suc room)) (ref d n)
    top-CanResolve d n size (inl p) =
        CanResolve-suc content store (suc room) (ref d n) (kept_ref d n p size)
    top-CanResolve d n size (inr q) =
        let (b, h, same) = named_block IsThere pushed d there q in
        let size' : n ≡ length (content b.digest) =
          subst (λ e. n ≡ length (content e)) (sym same) size in
        subst (λ e. CanResolve content store (suc (suc room)) (ref e n)) same
          (there-CanResolve (suc room) b n h size'
            (open_top b.body b.kind b.digest n h.fit h.in_block h.true_block.stands size')
            (λ can. CanResolve-suc content store (suc room) (ref b.digest n) can))

    pub program-CanResolve :
        (is : List Instr)
        → AllRefs (IsSized content kind_of) is
        → InRefs (Covered ctx (digests pushed)) is
        → All (CanResolve content store (suc (suc room))) is
    program-CanResolve [] f c = tt
    program-CanResolve (lit b ∷ is) f c = (tt, program-CanResolve is f c)
    program-CanResolve (ref d n ∷ is) (f, fs) (c, cs) =
        (top-CanResolve d n f c, program-CanResolve is fs cs)
