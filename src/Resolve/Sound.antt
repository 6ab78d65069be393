-- ===== src/Resolve/Sound.antt =====
-- The result of `resolve` against the meaning of the program (crates/muka-split/src/program.rs).
use muka_ai_trim.Common.{
  ℕ, zero, suc, ◌+◌, ◌≡◌, refl, sym, ap, ◌∙◌, some, List, [], ◌∷◌, ◌++◌, append_assoc, append-nil,
  length, ok, >>=-eq-ok, ltb, ◌==◌, unless-eq-ok, when-eq-ok, ok-injective,
}
use muka_ai_trim.Digest.{Digest}
use muka_ai_trim.Program.{Instr, lit, ref, BlockBody, bytes, program, Block}
use muka_ai_trim.Program.Meaning.{expand, instr_bytes, body_bytes}
use muka_ai_trim.Resolve.{Source, Stack, at_depth, is_empty, open_body, step, resolve_loop, resolve}
use muka_ai_trim.Resolve.Steps.{step-Opened}

-- Every stored block stands for the bytes that its digest names.
pub record IsFaithful (content : Digest → List ℕ) (store : Source) : Type 0 where
  pub agrees : (d : Digest) (b : Block) → store d ≡ some b → body_bytes content b.body ≡ content d

module _ (content : Digest → List ℕ) where
  abbrev pub stack_bytes : Stack → List ℕ
  stack_bytes [] = []
  stack_bytes ((i, d) ∷ s) = instr_bytes content i ++ stack_bytes s

  pub stack_bytes-at_depth :
      (d : ℕ) (p : List Instr) (s : Stack)
      → stack_bytes (at_depth d p ++ s) ≡ expand content p ++ stack_bytes s
  stack_bytes-at_depth d [] s = refl
  stack_bytes-at_depth d (i ∷ p) s = simp (stack_bytes-at_depth d p s, append_assoc)

module _ (content : Digest → List ℕ) (store : Source) (max_out max_depth : ℕ) where
  open_body-bytes :
      (b : BlockBody) (n d : ℕ) (out : List ℕ) (s : Stack) (out' : List ℕ) (s' : Stack)
      → open_body b n d out s ≡ ok (out', s')
      → out' ++ stack_bytes content s' ≡ out ++ (body_bytes content b ++ stack_bytes content s)
  unfolding open_body
  open_body-bytes (bytes x) n d out s out' s' h =
      let (_, e) = when-eq-ok (length x == n) _ _ h in
      let q : out ++ x ≡ out' = ap (λ (t : List ℕ × Stack). t.0) (ok-injective e) in
      let q' : s ≡ s' = ap (λ (t : List ℕ × Stack). t.1) (ok-injective e) in
      rw (← q, ← q', append_assoc)
  open_body-bytes (program p) n d out s out' s' h =
      let (_, e) = unless-eq-ok (is_empty p) _ _ h in
      let q : out ≡ out' = ap (λ (t : List ℕ × Stack). t.0) (ok-injective e) in
      let q' : at_depth (d + 1) p ++ s ≡ s' = ap (λ (t : List ℕ × Stack). t.1) (ok-injective e) in
      rw (← q, ← q', stack_bytes-at_depth content (d + 1) p s)

  pub step-bytes :
      IsFaithful content store
      → (i : Instr) (d : ℕ) (out : List ℕ) (s : Stack) (out' : List ℕ) (s' : Stack)
      → step store max_out max_depth i d out s ≡ ok (out', s')
      → out' ++ stack_bytes content s' ≡ out ++ stack_bytes content ((i, d) ∷ s)
  unfolding step
  step-bytes f (lit b) d out s out' s' h =
      let (_, e) = unless-eq-ok (ltb max_out (length out + length b)) _ _ h in
      let q : out ++ b ≡ out' = ap (λ (t : List ℕ × Stack). t.0) (ok-injective e) in
      let q' : s ≡ s' = ap (λ (t : List ℕ × Stack). t.1) (ok-injective e) in
      rw (← q, ← q', append_assoc)
  step-bytes f (ref g n) d out s out' s' h =
      let o = step-Opened store max_out max_depth (out', s') h in
      open_body-bytes o.block.body n d out s out' s' o.opened
      ∙ ap (λ (t : List ℕ). out ++ (t ++ stack_bytes content s)) (f.agrees g o.block o.found)

  resolve_loop-bytes :
      IsFaithful content store
      → (fuel : ℕ) (out : List ℕ) (s : Stack) (res : List ℕ)
      → resolve_loop store max_out max_depth fuel out s ≡ ok res
      → res ≡ out ++ stack_bytes content s
  unfolding resolve_loop
  resolve_loop-bytes f fuel out [] res h = sym (ok-injective h) ∙ sym (append-nil out)
  resolve_loop-bytes f zero out ((i, d) ∷ s) res h = cc
  resolve_loop-bytes f (suc fuel) out ((i, d) ∷ s) res h =
      let (p, e, r) = >>=-eq-ok (step store max_out max_depth i d out s) _ h in
      resolve_loop-bytes f fuel p.0 p.1 res r ∙ step-bytes f i d out s p.0 p.1 e

  -- If every stored block stands for the bytes that its digest names, a successful `resolve`
  -- returns the literals and the named bytes of the program, in order and complete.
  pub resolve-eq-expand :
      IsFaithful content store
      → (instrs : List Instr) (res : List ℕ) → resolve store instrs max_out max_depth ≡ ok res
      → res ≡ expand content instrs
  unfolding resolve
  resolve-eq-expand f instrs res h =
      resolve_loop-bytes f _ [] (at_depth 1 instrs) res h
      ∙ rw (append-nil, append-nil) at (stack_bytes-at_depth content 1 instrs [])
