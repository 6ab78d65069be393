-- ===== src/Session/Pushed.antt =====
-- The blocks that a split pushes (crates/muka-split/src/splitter.rs), checked and kept by the peer's
-- store (crates/muka-store/src/lib.rs).
use muka_ai_trim.Common.{
  ℕ, ◌+◌, ◌%◌, ◌<◌, ◌^◌, ◌≡◌, ◌⊎◌, some, inl, inr, refl, sym, ap, ◌∙◌, arith, true, List, [], ◌∷◌,
  length, length-append, ◌==◌, ==_iff, All, bytes_eq, bytes_eq_iff, u64_mod,
}
use muka_ai_trim.Digest.{Digest, BlockKind, digest_of}
use muka_ai_trim.Program.{
  Instr, lit, ref, BlockBody, bytes, program, Block, out_len, map_instrs, sum_u64, total_len,
}
use muka_ai_trim.Program.Meaning.{expand, body_bytes}
use muka_ai_trim.Resolve.Complete.{CanResolve}
use muka_ai_trim.Resolve.Sound.{IsFaithful}
use muka_ai_trim.Session.{source}
use muka_ai_trim.Session.Kept.{HasRoom, keep_all, keep_all-AreKept}
use muka_ai_trim.Session.Lookups.{CanResolve-Extends}
use muka_ai_trim.Session.Split.{IsReady}
use muka_ai_trim.Splitter.{Ctx, SplitOutput, split}
use muka_ai_trim.Splitter.Blocks.{Names, IsTrue}
use muka_ai_trim.Splitter.Body.{split_body}
use muka_ai_trim.Splitter.Delivered.{IsHeld, split_body-IsFitting}
use muka_ai_trim.Splitter.Fit.{Kinds, IsLeaf, HasFit, IsFit}
use muka_ai_trim.Splitter.Refs.{AllRefs}
use muka_ai_trim.Splitter.Whole.{split_body-IsExact}
use muka_ai_trim.Store.{Config, Inner, has, verifies}

module _ (content : Digest → List ℕ) (kind_of : Digest → BlockKind) where
  sum_u64-expand :
      (p : List Instr) (acc : ℕ)
      → acc < 2 ^ 64
      → AllRefs (IsLeaf content kind_of) p
      → sum_u64 acc (map_instrs out_len p) ≡ (acc + length (expand content p)) % 2 ^ 64
  unfolding sum_u64 out_len
  sum_u64-expand [] acc small h = omega (arith, small)
  sum_u64-expand (lit b ∷ p) acc small h =
      sum_u64-expand p ((acc + length b) % u64_mod) (omega arith) h
      ∙ omega (arith, length-append b (expand content p))
  sum_u64-expand (ref d n ∷ p) acc small ((size, _), h) =
      sum_u64-expand p ((acc + n) % u64_mod) (omega arith) h
      ∙ omega (arith, size, length-append (content d) (expand content p))

  total_len-expand :
      (p : List Instr)
      → AllRefs (IsLeaf content kind_of) p
      → total_len p ≡ length (expand content p) % 2 ^ 64
  unfolding total_len
  total_len-expand p h = sum_u64-expand p 0 (omega arith) h ∙ omega arith

  -- A store accepts a block that fits and is true.
  pub verifies-IsFit :
      (cfg : Config) (blake3 : List ℕ → List ℕ) (b : Block)
      → IsTrue content b
      → IsFit content kind_of blake3 b
      → b.len < 2 ^ 64
      → verifies cfg blake3 b.body b.kind b.digest b.len ≡ true
  unfolding verifies
  verifies-IsFit cfg blake3 b t f small = at_body b.body f t.stands t.sized
    where
      at_body :
          (x : BlockBody)
          → HasFit content kind_of blake3 b.kind b.digest x
          → body_bytes content x ≡ content b.digest
          → b.len ≡ length (content b.digest)
          → verifies cfg blake3 x b.kind b.digest b.len ≡ true
      at_body (bytes x) same stands sized =
          let d : bytes_eq (digest_of blake3 b.kind x) b.digest ≡ true =
            (bytes_eq_iff _ _).1 same in
          let n : (length x == b.len) ≡ true = (==_iff _ _).1 (ap length stands ∙ sym sized) in
          rw (d, n) refl
      at_body (program p) (some_p, leaves, _) stands sized =
          let total : total_len p ≡ length (expand content p) % 2 ^ 64 =
            total_len-expand p leaves in
          let same : length (expand content p) ≡ b.len = ap length stands ∙ sym sized in
          let n : (total_len p == b.len) ≡ true =
            (==_iff _ _).1 (omega (arith, total, same, small)) in
          rw n refl

module _ {S : Type 0} (ctx : Ctx S) (content : Digest → List ℕ) (kind_of : Digest → BlockKind)
    (body : List ℕ) (names : Names ctx.blake3 content body) (kinds : Kinds ctx.blake3 kind_of body)
    (cfg : Config) (now : ℕ) where
  -- The peer's store before a request has what the splitter took it to have, under each digest only
  -- what it names, and all of it can be expanded at a depth of 31. It has room for the pushed blocks.
  pub record IsPeerReady (g : Inner) (pushed : List Block) : Type 0 where
    pub faithful : IsFaithful content (source g)
    pub accurate : (d : Digest) → ctx.peer d ≡ true → has g d ≡ true
    pub known :
        (d : Digest)
        → has g d ≡ true
        → CanResolve content (source g) 31 (ref d (length (content d)))
    pub room : HasRoom cfg ctx.blake3 now g pushed

  All-verifies :
      (bs : List Block)
      → All (IsTrue content) bs
      → All (IsFit content kind_of ctx.blake3) bs
      → All (λ b. b.len < 2 ^ 64) bs
      → All (λ b. verifies cfg ctx.blake3 b.body b.kind b.digest b.len ≡ true) bs
  All-verifies [] ts fs ss = tt
  All-verifies (b ∷ bs) (t, ts) (f, fs) (s, ss) =
      (verifies-IsFit content kind_of cfg ctx.blake3 b t f s, All-verifies bs ts fs ss)

  -- After the pushed blocks of a split are kept, the store is ready for its program.
  pub keep_all-IsReady :
      (local : S) (out : SplitOutput) (g : Inner)
      → split_body ctx body local ≡ split out
      → cfg.max_bytes < 2 ^ 64
      → All (λ b. b.len < 2 ^ 64) out.to_push
      → IsPeerReady g out.to_push
      → IsReady ctx content kind_of body names kinds
          (keep_all cfg ctx.blake3 now out.to_push g)
          out.to_push
  keep_all-IsReady local out g e small short r =
      let exact = split_body-IsExact ctx content body names local out e in
      let fitting = split_body-IsFitting ctx content kind_of body names kinds local out e in
      let g' : Inner = keep_all cfg ctx.blake3 now out.to_push g in
      let k =
        keep_all-AreKept cfg ctx.blake3 now content small out.to_push g r.faithful exact.truthful
          (All-verifies out.to_push exact.truthful fitting.blocks short) fitting.distinct r.room in
      record {
        faithful = k.faithful;
        kept = λ d p.
            CanResolve-Extends content (source g) (source g') k.extends 31
              (ref d (length (content d))) (r.known d (r.accurate d p));
        held = all_held g' k.extends out.to_push k.there;
      }
    where
      all_held :
          (g' : Inner)
          → ((d : Digest) (b : Block) → source g d ≡ some b → source g' d ≡ some b)
          → (bs : List Block)
          → All (λ b. (source g' b.digest ≡ some b) ⊎ (has g b.digest ≡ true)) bs
          → All (IsHeld content (source g') 31) bs
      all_held g' grows [] h = tt
      all_held g' grows (b ∷ bs) (inl q, hs) = (inl q, all_held g' grows bs hs)
      all_held g' grows (b ∷ bs) (inr q, hs) = (
        inr (
            CanResolve-Extends content (source g) (source g') grows 31
              (ref b.digest (length (content b.digest))) (r.known b.digest q)),
        all_held g' grows bs hs,
      )
