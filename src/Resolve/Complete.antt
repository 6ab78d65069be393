-- ===== src/Resolve/Complete.antt =====
-- The successful runs of `resolve` (crates/muka-split/src/program.rs).
use muka_ai_trim.Common.{
  ℕ, zero, suc, ◌+◌, ◌-◌, ◌≤◌, ◌<◌, ◌%◌, ◌^◌, ◌≡◌, refl, ap, ◌∙◌, arith, some, List, [], ◌∷◌, ◌++◌,
  append-nil, length, length-append, ok, ltb, ge→ltb, ◌==◌, ==_iff, ==_refl, true, false, All,
  Bool-cases, inl, inr, ltb→lt, ltb→ge,
}
use muka_ai_trim.Digest.{Digest}
use muka_ai_trim.Program.{Instr, lit, ref, BlockBody, bytes, program, Block}
use muka_ai_trim.Program.Meaning.{expand, instr_bytes}
use muka_ai_trim.Resolve.{
  Source, Stack, at_depth, is_empty, find_block, open_body, step, resolve_loop, resolve,
}
use muka_ai_trim.Resolve.Total.{stack_rounds, stack_rounds-at_depth, step-rounds, rounds_pos}
use muka_ai_trim.Resolve.Sound.{
  IsFaithful, stack_bytes, stack_bytes-at_depth, step-bytes, resolve-eq-expand,
}

module _ (content : Digest → List ℕ) (store : Source) where
  abbrev pub CanOpen : (Instr → Type 0) → BlockBody → ℕ → Type 0
  CanOpen R (bytes b) n = length b ≡ n
  CanOpen R (program p) n = (is_empty p ≡ false) × All R p

  -- An instruction that a peer with this store can expand when references may nest `room` deep.
  abbrev pub CanResolve : ℕ → Instr → Type 0
  CanResolve room (lit b) = Unit
  CanResolve zero (ref d n) = ⊥
  CanResolve (suc room) (ref d n) =
      (b : Block) × (store d ≡ some b)
      × (b.len ≡ n)
      × (n ≤ length (content d))
      × CanOpen (CanResolve room) b.body n

module _ (content : Digest → List ℕ) (store : Source) (max_out max_depth : ℕ)
    (room : max_out < 2 ^ 64) where
  abbrev CanDrain : Stack → Type 0
  CanDrain [] = Unit
  CanDrain ((i, d) ∷ s) = CanResolve content store (suc max_depth - d) i × CanDrain s

  CanDrain-at_depth :
      (d : ℕ) (p : List Instr) (s : Stack)
      → All (CanResolve content store (suc max_depth - d)) p
      → CanDrain s
      → CanDrain (at_depth d p ++ s)
  CanDrain-at_depth d [] s hp hs = hs
  CanDrain-at_depth d (i ∷ p) s (hi, hp) hs = (hi, CanDrain-at_depth d p s hp hs)

  open_body-progress :
      (b : BlockBody) (n d : ℕ) (out : List ℕ) (s : Stack)
      → d ≤ max_depth
      → CanOpen content store (CanResolve content store (max_depth - d)) b n
      → CanDrain s
      → (p : List ℕ × Stack) × (open_body b n d out s ≡ ok p) × CanDrain p.1
  unfolding open_body
  open_body-progress (bytes x) n d out s hd h hs = ((out ++ x, s), rw (h, ==_refl n), hs)
  open_body-progress (program q) n d out s hd (full, h) hs =
      let e : suc max_depth - (d + 1) ≡ max_depth - d = omega arith in
      ((out, at_depth (d + 1) q ++ s), rw full, CanDrain-at_depth (d + 1) q s (rw e h) hs)

  find_block-some : (g : Digest) (b : Block) → store g ≡ some b → find_block store g ≡ ok b
  unfolding find_block
  find_block-some g b h = ground arith

  step-progress :
      (i : Instr) (d : ℕ) (out : List ℕ) (s : Stack)
      → length out + length (instr_bytes content i) ≤ max_out
      → CanResolve content store (suc max_depth - d) i
      → CanDrain s
      → (p : List ℕ × Stack) × (step store max_out max_depth i d out s ≡ ok p) × CanDrain p.1
  unfolding step
  step-progress (lit b) d out s fits h hs = ((out ++ b, s), rw (ge→ltb _ _ fits), hs)
  step-progress (ref g n) d out s fits h hs = elim (Bool-cases (ltb max_depth d)) [
    | inl deep ↦
        let gt = ltb→lt max_depth d deep in
        let none_left : suc max_depth - d ≡ 0 = omega arith in absurd (rw none_left at h)
    | inr shallow ↦
        let le = ltb→ge max_depth d shallow in
        let some_left : suc max_depth - d ≡ suc (max_depth - d) = omega arith in
        let (b, found, same, small, can) = rw some_left at h in
        let (p, e, drained) = open_body-progress b.body n d out s le can hs in
        let fits' : ltb max_out ((length out + n) % 2 ^ 64) ≡ false = ge→ltb _ _ (omega arith) in
        let same' : (b.len == n) ≡ true = (==_iff b.len n).1 same in
        (p, rw (shallow, fits', find_block-some g b found, same') e, drained)
  ]

  resolve_loop-progress :
      IsFaithful content store
      → (fuel : ℕ) (out : List ℕ) (s : Stack) → stack_rounds store max_out max_depth s ≤ fuel
      → length out + length (stack_bytes content s) ≤ max_out
      → CanDrain s
      → (res : List ℕ) × (resolve_loop store max_out max_depth fuel out s ≡ ok res)
  unfolding resolve_loop stack_rounds
  resolve_loop-progress f fuel out [] hf fits hs = (out, refl)
  resolve_loop-progress f zero out ((i, d) ∷ s) hf fits hs =
      absurd (omega (arith, rounds_pos store max_out max_depth (suc max_depth - d) i))
  resolve_loop-progress f (suc fuel) out ((i, d) ∷ s) hf fits (hi, hs) =
      let split = length-append (instr_bytes content i) (stack_bytes content s) in
      let (p, e, drained) = step-progress i d out s (omega arith) hi hs in
      let kept = ap length (step-bytes content store max_out max_depth f i d out s p.0 p.1 e) in
      let kept' : length p.0 + length (stack_bytes content p.1)
          ≡ length out + length (stack_bytes content ((i, d) ∷ s)) =
        omega (
          arith,
          length-append p.0 (stack_bytes content p.1),
          length-append out (stack_bytes content ((i, d) ∷ s)),
          kept,
        ) in
      rw e (
        resolve_loop-progress f fuel p.0 p.1
          (omega (arith, step-rounds store max_out max_depth i d out s p.0 p.1 e)) (omega arith)
          drained)

  resolve-returns :
      IsFaithful content store
      → (instrs : List Instr) → All (CanResolve content store max_depth) instrs
      → length (expand content instrs) ≤ max_out
      → (res : List ℕ) × (resolve store instrs max_out max_depth ≡ ok res)
  unfolding resolve
  resolve-returns f instrs can fits =
      let top : suc max_depth - 1 ≡ max_depth = omega arith in
      let bytes_e = rw append-nil at (stack_bytes-at_depth content 1 instrs []) in
      let rounds_e =
        rw (top, append-nil) at (stack_rounds-at_depth store max_out max_depth 1 instrs []) in
      let drained = rw append-nil at (CanDrain-at_depth 1 instrs [] (rw top can) tt) in
      resolve_loop-progress f _ [] (at_depth 1 instrs) (omega (arith, rounds_e, no_rounds))
        (omega (arith, ap length (bytes_e ∙ append-nil (expand content instrs)))) drained
    where
      no_rounds : stack_rounds store max_out max_depth [] ≡ 0
      no_rounds = unfold stack_rounds in refl

  -- A faithful store that can expand every instruction, for a program that stands for at most
  -- `max_out` bytes: `resolve` returns these bytes.
  pub resolve_complete :
      IsFaithful content store
      → (instrs : List Instr) → All (CanResolve content store max_depth) instrs
      → length (expand content instrs) ≤ max_out
      → resolve store instrs max_out max_depth ≡ ok (expand content instrs)
  resolve_complete f instrs can fits =
      let (res, e) = resolve-returns f instrs can fits in
      e ∙ ap ok (resolve-eq-expand content store max_out max_depth f instrs res e)
