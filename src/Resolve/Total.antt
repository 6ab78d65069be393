-- ===== src/Resolve/Total.antt =====
-- The rounds of the loop of `resolve` (crates/muka-split/src/program.rs).
use muka_ai_trim.Common.{
  ℕ, zero, suc, ◌+◌, ◌-◌, ◌≤◌, ◌<◌, ◌≡◌, ◌≢◌, arith, some, List, [], ◌∷◌, ◌++◌, ltb, inl, inr,
  length, ok, err, guard, ◌==◌, ◌%◌, Result-cases, unless-eq-ok, unless-ne-err, >>=-ne-err, ◌^◌, ap,
  ◌∙◌, append-nil, refl,
}
use muka_ai_trim.Digest.{Digest}
use muka_ai_trim.Program.{Instr, lit, ref, BlockBody, bytes, program, Block}
use muka_ai_trim.Resolve.{
  corrupt, out_of_fuel, Source, Stack, at_depth, is_empty, open_body, find_block, step,
  resolve_loop, sum_rounds, rounds, resolve,
}
use muka_ai_trim.Resolve.Steps.{step-Opened}

module _ (store : Source) (max_out max_depth : ℕ) where
  unfoldable pub stack_rounds : Stack → ℕ
  stack_rounds [] = 0
  stack_rounds ((i, d) ∷ s) = rounds store (suc max_depth - d) i + stack_rounds s

  pub stack_rounds-at_depth :
      (d : ℕ) (p : List Instr) (s : Stack)
      → stack_rounds (at_depth d p ++ s)
        ≡ sum_rounds (rounds store (suc max_depth - d)) p + stack_rounds s
  unfolding stack_rounds
  stack_rounds-at_depth d [] s = omega arith
  stack_rounds-at_depth d (i ∷ p) s = omega (arith, stack_rounds-at_depth d p s)

  open_body-rounds :
      (b : Block) (g : Digest) (n d : ℕ) (out : List ℕ) (s : Stack) (out' : List ℕ) (s' : Stack)
      → d ≤ max_depth
      → store g ≡ some b
      → open_body b.body n d out s ≡ ok (out', s')
      → stack_rounds s' < stack_rounds ((ref g n, d) ∷ s)
  unfolding open_body stack_rounds rounds
  open_body-rounds b g n d out s out' s' hd hb h =
      let room : suc max_depth - d ≡ suc (max_depth - d) = omega arith in
      rw (room, hb) (cases b.body h)
    where
      cases :
          (body : BlockBody)
          → open_body body n d out s ≡ ok (out', s')
          → stack_rounds s'
            < suc (elim body [
              | bytes x ↦ 0
              | program p ↦ sum_rounds (rounds store (max_depth - d)) p
            ])
              + stack_rounds s
      cases (bytes x) h = ground arith
      cases (program p) h =
          let room' : suc max_depth - (d + 1) ≡ max_depth - d = omega arith in
          let (full, e) = unless-eq-ok (is_empty p) _ _ h in
          ground (arith, e, rw room' at (stack_rounds-at_depth (d + 1) p s))

  -- What a round leaves on the stack takes fewer rounds.
  pub step-rounds :
      (i : Instr) (d : ℕ) (out : List ℕ) (s : Stack) (out' : List ℕ) (s' : Stack)
      → step store max_out max_depth i d out s ≡ ok (out', s')
      → stack_rounds s' < stack_rounds ((i, d) ∷ s)
  unfolding step stack_rounds rounds
  step-rounds (lit b) d out s out' s' h = ground arith
  step-rounds (ref g n) d out s out' s' h =
      let o = step-Opened store max_out max_depth (out', s') h in
      open_body-rounds o.block g n d out s out' s' o.shallow o.found o.opened

  open_body-ne-out_of_fuel :
      (b : BlockBody) (n d : ℕ) (out : List ℕ) (s : Stack) → open_body b n d out s ≢ err out_of_fuel
  unfolding open_body
  open_body-ne-out_of_fuel (bytes x) n d out s = ground arith
  open_body-ne-out_of_fuel (program p) n d out s = ground arith

  find_block-ne-out_of_fuel : (g : Digest) → find_block store g ≢ err out_of_fuel
  unfolding find_block
  find_block-ne-out_of_fuel g = ground arith

  step-ne-out_of_fuel :
      (i : Instr) (d : ℕ) (out : List ℕ) (s : Stack)
      → step store max_out max_depth i d out s ≢ err out_of_fuel
  unfolding step
  step-ne-out_of_fuel (lit b) d out s = ground arith
  step-ne-out_of_fuel (ref g n) d out s =
      unless-ne-err (ltb max_depth d) _ _ (λ e. cc)
        (unless-ne-err (ltb max_out ((length out + n) % 2 ^ 64)) _ _ (λ e. cc)
          (>>=-ne-err (find_block store g) _ (find_block-ne-out_of_fuel g) (λ b.
            >>=-ne-err (guard (b.len == n) corrupt) _ (ground arith)
              (λ _. open_body-ne-out_of_fuel b.body n d out s))))

  pub rounds_pos : (room : ℕ) (i : Instr) → 1 ≤ rounds store room i
  unfolding rounds
  rounds_pos zero (lit b) = omega arith
  rounds_pos zero (ref g n) = omega arith
  rounds_pos (suc room) (lit b) = omega arith
  rounds_pos (suc room) (ref g n) = omega arith

  resolve_loop-ne-out_of_fuel :
      (fuel : ℕ) (out : List ℕ) (s : Stack)
      → stack_rounds s ≤ fuel
      → resolve_loop store max_out max_depth fuel out s ≢ err out_of_fuel
  unfolding resolve_loop stack_rounds
  resolve_loop-ne-out_of_fuel fuel out [] h = λ e. cc
  resolve_loop-ne-out_of_fuel zero out ((i, d) ∷ s) h =
      absurd (omega (arith, rounds_pos (suc max_depth - d) i))
  resolve_loop-ne-out_of_fuel (suc fuel) out ((i, d) ∷ s) h =
      elim (Result-cases (step store max_out max_depth i d out s)) [
        | inl ((out', s'), e) ↦ rw e (
            resolve_loop-ne-out_of_fuel fuel out' s'
              (omega (arith, step-rounds i d out s out' s' e)))
        | inr (x, e) ↦ rw e (λ q.
            let same : x ≡ out_of_fuel = cc in step-ne-out_of_fuel i d out s (e ∙ ap err same))
      ]

  -- `resolve` always ends: it never runs out of rounds.
  pub resolve-ne-out_of_fuel :
      (instrs : List Instr) → resolve store instrs max_out max_depth ≢ err out_of_fuel
  unfolding resolve
  resolve-ne-out_of_fuel instrs =
      let room : suc max_depth - 1 ≡ max_depth = omega arith in
      resolve_loop-ne-out_of_fuel _ [] (at_depth 1 instrs)
        (omega (arith, rw (room, append-nil) at (stack_rounds-at_depth 1 instrs []), none_left))
    where
      none_left : stack_rounds [] ≡ 0
      none_left = unfold stack_rounds in refl
