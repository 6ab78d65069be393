-- ===== src/Session/Split.antt =====
-- `rebuild` of crates/muka-gateway/src/session.rs for a body that `split_body` of
-- crates/muka-split/src/splitter.rs has split.
use muka_ai_trim.Common.{
  ℕ, ◌+◌, ◌%◌, ◌<◌, ◌^◌, ◌≡◌, refl, subst, arith, inl, inr, true, List, [], length, ok, All,
  u64_mod,
}
use muka_ai_trim.Digest.{Digest, BlockKind, digest_of, raw}
use muka_ai_trim.Message.{RequestHead}
use muka_ai_trim.Program.{ref, Block}
use muka_ai_trim.Resolve.{contains, resolve, missing_blocks}
use muka_ai_trim.Resolve.Complete.{CanResolve}
use muka_ai_trim.Resolve.Sound.{IsFaithful}
use muka_ai_trim.Session.{max_instrs, source, assemble, rebuild, is_declared}
use muka_ai_trim.Session.Lookups.{source-has}
use muka_ai_trim.Session.Rebuilt.{is_declared_lem}
use muka_ai_trim.Splitter.{Ctx, SplitOutput, split}
use muka_ai_trim.Splitter.Blocks.{Names, digests}
use muka_ai_trim.Splitter.Body.{split_body}
use muka_ai_trim.Splitter.Delivered.{IsHeld, resolve-split_body_complete}
use muka_ai_trim.Splitter.Fit.{Kinds}
use muka_ai_trim.Splitter.Opened.{named_block}
use muka_ai_trim.Splitter.Whole.{missing_blocks-split_body}
use muka_ai_trim.Store.{Inner, has}

module _ {S : Type 0} (ctx : Ctx S) (content : Digest → List ℕ) (kind_of : Digest → BlockKind)
    (body : List ℕ) (names : Names ctx.blake3 content body)
    (kinds : Kinds ctx.blake3 kind_of body) where
  -- The peer's store has what the agent's side takes it to have and what was pushed: each
  -- pushed block or something in its place, and something for each digest that the splitter found at
  -- the peer, all of which can be expanded at a depth of 31.
  pub record IsReady (g : Inner) (pushed : List Block) : Type 0 where
    pub faithful : IsFaithful content (source g)
    pub kept :
        (d : Digest)
        → ctx.peer d ≡ true
        → CanResolve content (source g) 31 (ref d (length (content d)))
    pub held : All (IsHeld content (source g) 31) pushed

  kept-has :
      (g : Inner) (pushed : List Block)
      → IsReady g pushed
      → (d : Digest) → ctx.peer d ≡ true
      → has g d ≡ true
  kept-has g pushed r d p = let (b, found, _, _, _) = r.kept d p in source-has g d b found

  held-has :
      (g : Inner) (pushed : List Block)
      → IsReady g pushed
      → (d : Digest) → contains (digests pushed) d ≡ true
      → has g d ≡ true
  held-has g pushed r d q =
      let (b, held, same) = named_block (IsHeld content (source g) 31) pushed d r.held q in
      subst (λ e. has g e ≡ true) same
        (elim held [
          | inl found ↦ source-has g b.digest b found
          | inr can ↦ let (x, found, _, _, _) = can in source-has g b.digest x found
        ])

  assemble-split_body :
      (local : S) (out : SplitOutput) (g : Inner) (head : RequestHead) (literal : List ℕ)
      → split_body ctx body local ≡ split out
      → IsReady g out.to_push
      → head.split ≡ true
      → head.body_len ≡ length body
      → length body + 1 < 2 ^ 64
      → assemble g head out.instrs literal ≡ ok body
  unfolding assemble
  assemble-split_body local out g head literal e r splits len small =
      let none_missing : missing_blocks (source g) (has g) out.instrs max_instrs ≡ [] =
        missing_blocks-split_body ctx body local out (source g) (has g) max_instrs e
          (kept-has g out.to_push r) (held-has g out.to_push r) in
      let room : (head.body_len + 1) % u64_mod ≡ length body + 1 = omega (arith, len, small) in
      let whole : resolve (source g) out.instrs (length body + 1) 32 ≡ ok body =
        resolve-split_body_complete ctx content kind_of body names kinds local out (source g)
          (length body + 1) 30 e r.faithful r.kept r.held (omega arith) small in
      rw (splits, none_missing, room, whole) refl

  -- A split request is rebuilt: where `split_body` splits a body, and the peer's store has what was
  -- pushed and can expand what the splitter took it to have, `rebuild` returns exactly the body for
  -- a head that declares its length and digest, and asks for no repair. On the slices of this body
  -- no two contents and no two kinds share a digest, and its length is below 2^64 - 1.
  pub rebuild-split_body :
      (local : S) (out : SplitOutput) (g : Inner) (head : RequestHead) (literal : List ℕ)
      → split_body ctx body local ≡ split out
      → IsReady g out.to_push
      → head.split ≡ true
      → head.body_len ≡ length body
      → head.body_digest ≡ digest_of ctx.blake3 raw body
      → length body + 1 < 2 ^ 64
      → rebuild ctx.blake3 g head out.instrs literal ≡ ok body
  unfolding rebuild
  rebuild-split_body local out g head literal e r splits len dig small =
      let declared : is_declared ctx.blake3 head body ≡ true =
        is_declared_lem ctx.blake3 head body len dig in
      rw (assemble-split_body local out g head literal e r splits len small, declared) refl
