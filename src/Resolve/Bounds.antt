-- ===== src/Resolve/Bounds.antt =====
-- The size limit of `resolve` (crates/muka-split/src/program.rs).
use muka_ai_trim.Common.{
  ℕ, zero, suc, ◌+◌, ◌≤◌, ◌<◌, ◌%◌, ◌^◌, ◌≡◌, arith, some, List, [], ◌∷◌, ◌++◌, length,
  length-append, ok, >>=-eq-ok, ltb, ◌==◌, unless-eq-ok, when-eq-ok, ok-injective, ltb→ge, ap,
  ==_iff,
}
use muka_ai_trim.Digest.{Digest}
use muka_ai_trim.Program.{Instr, lit, ref, BlockBody, bytes, program, Block}
use muka_ai_trim.Resolve.{Source, Stack, at_depth, is_empty, open_body, step, resolve_loop, resolve}
use muka_ai_trim.Resolve.Steps.{step-Opened}

abbrev pub body_length : BlockBody → ℕ
body_length (bytes b) = length b
body_length (program p) = 0

-- No buffer is larger than Rust lets an allocation be.
pub record IsAllocated (store : Source) : Type 0 where
  pub small : (d : Digest) (b : Block) → store d ≡ some b → body_length b.body < 2 ^ 63

module _ (store : Source) (max_out max_depth : ℕ) (room : max_out < 2 ^ 63) where
  open_body-le :
      (b : BlockBody) (n d : ℕ) (out : List ℕ) (s : Stack) (p : List ℕ × Stack)
      → body_length b < 2 ^ 63
      → length out ≤ max_out
      → (length out + n) % 2 ^ 64 ≤ max_out
      → open_body b n d out s ≡ ok p
      → length p.0 ≤ max_out
  unfolding open_body
  open_body-le (bytes x) n d out s p hb ho fits h =
      let (same, e) = when-eq-ok (length x == n) _ _ h in
      let q : length (out ++ x) ≡ length p.0 =
        ap (λ (t : List ℕ × Stack). length t.0) (ok-injective e) in
      omega (arith, (==_iff (length x) n).0 same, length-append out x)
  open_body-le (program i) n d out s p hb ho fits h =
      let (_, e) = unless-eq-ok (is_empty i) _ _ h in
      let q : length out ≡ length p.0 = ap (λ (t : List ℕ × Stack). length t.0) (ok-injective e) in
      omega arith

  step-le :
      IsAllocated store
      → (i : Instr) (d : ℕ) (out : List ℕ) (s : Stack) (p : List ℕ × Stack) → length out ≤ max_out
      → step store max_out max_depth i d out s ≡ ok p
      → length p.0 ≤ max_out
  unfolding step
  step-le a (lit b) d out s p ho h =
      let (fits, e) = unless-eq-ok (ltb max_out (length out + length b)) _ _ h in
      let q : length (out ++ b) ≡ length p.0 =
        ap (λ (t : List ℕ × Stack). length t.0) (ok-injective e) in
      omega (arith, ltb→ge _ _ fits, length-append out b)
  step-le a (ref g n) d out s p ho h =
      let o = step-Opened store max_out max_depth p h in
      open_body-le o.block.body n d out s p (a.small g o.block o.found) ho o.fits o.opened

  resolve_loop-le :
      IsAllocated store
      → (fuel : ℕ) (out : List ℕ) (s : Stack) (res : List ℕ) → length out ≤ max_out
      → resolve_loop store max_out max_depth fuel out s ≡ ok res
      → length res ≤ max_out
  unfolding resolve_loop
  resolve_loop-le a fuel out [] res ho h = omega (arith, ap length (ok-injective h))
  resolve_loop-le a zero out ((i, d) ∷ s) res ho h = cc
  resolve_loop-le a (suc fuel) out ((i, d) ∷ s) res ho h =
      let (p, e, r) = >>=-eq-ok (step store max_out max_depth i d out s) _ h in
      resolve_loop-le a fuel p.0 p.1 res (step-le a i d out s p ho e) r

  -- What `resolve` returns is no longer than `max_out`, for a limit and stored buffers below 2^63
  -- bytes; the wrapping sum in the test does not let a longer result pass.
  pub length-resolve :
      IsAllocated store
      → (instrs : List Instr) (res : List ℕ) → resolve store instrs max_out max_depth ≡ ok res
      → length res ≤ max_out
  unfolding resolve
  length-resolve a instrs res h = resolve_loop-le a _ [] (at_depth 1 instrs) res (omega arith) h
