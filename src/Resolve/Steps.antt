-- ===== src/Resolve/Steps.antt =====
-- What a successful round of `resolve` on a reference has checked, and what it did.
use muka_ai_trim.Common.{
  ℕ, ◌+◌, ◌%◌, ◌^◌, ◌≤◌, ◌≡◌, arith, some, List, length, Result, ok, ltb, ◌==◌, unless-eq-ok,
  guard-eq-ok, ltb→ge, ==_iff, >>=-eq-ok,
}
use muka_ai_trim.Digest.{Digest}
use muka_ai_trim.Program.{ref, Block}
use muka_ai_trim.Resolve.{ResolveError, Source, Stack, find_block, open_body, step}

module _ (store : Source) (max_out max_depth : ℕ) where
  pub record Opened (g : Digest) (n d : ℕ) (out : List ℕ) (s : Stack)
      (res : Result ResolveError (List ℕ × Stack)) : Type 0 where
    pub shallow : d ≤ max_depth
    pub fits : (length out + n) % 2 ^ 64 ≤ max_out
    pub block : Block
    pub found : store g ≡ some block
    pub same_len : block.len ≡ n
    pub opened : open_body block.body n d out s ≡ res

  find_block_found : (g : Digest) (b : Block) → find_block store g ≡ ok b → store g ≡ some b
  unfolding find_block
  find_block_found g b h = ground arith

  pub step-Opened :
      {g : Digest} {n d : ℕ} {out : List ℕ} {s : Stack} (p : List ℕ × Stack)
      → step store max_out max_depth (ref g n) d out s ≡ ok p
      → Opened g n d out s (ok p)
  unfolding step
  step-Opened {g} {n} {d} {out} {s} p h =
      let (shallow, h₁) = unless-eq-ok (ltb max_depth d) _ _ h in
      let (fits, h₂) = unless-eq-ok (ltb max_out ((length out + n) % 2 ^ 64)) _ _ h₁ in
      let (b, found, h₃) = >>=-eq-ok (find_block store g) _ h₂ in
      let (same, opened) = guard-eq-ok (b.len == n) _ _ h₃ in
      record {
        shallow = ltb→ge _ _ shallow;
        fits = ltb→ge _ _ fits;
        block = b;
        found = find_block_found g b found;
        same_len = (==_iff b.len n).0 same;
        opened = opened;
      }
