-- ===== src/Resolve.antt =====
-- `resolve` and `missing_blocks` of crates/muka-split/src/program.rs.
-- A store is the function of its `get`: the loops never write to it. A `Vec` used as a stack is a
-- list whose head is the vector's last element.
pub mod Steps
pub mod Total
pub mod Sound
pub mod Bounds
pub mod Complete
pub mod Missing
use muka_ai_trim.Common.{
  ℕ, zero, suc, ◌+◌, ◌-◌, ◌%◌, Bool, true, false, ◌||◌, Option, none, some, List, [], ◌∷◌, ◌++◌,
  ltb, leb, ◌==◌, if◌then◌else◌, length, u64_mod, Result, ok, err, ◌>>=◌, ◌>>◌, bytes_eq, guard,
}
use muka_ai_trim.Digest.{Digest}
use muka_ai_trim.Program.{Instr, lit, ref, BlockBody, bytes, program, Block}

-- `out_of_fuel` is no value of the source: the rounds of the loop ran out.
pub data ResolveError : Type 0 where
  missing : Digest → ResolveError
  too_deep : ℕ → ResolveError
  too_large : ℕ → ResolveError
  corrupt : ResolveError
  out_of_fuel : ResolveError

abbrev pub Source : Type 0
Source = Digest → Option Block

abbrev pub Stack : Type 0
Stack = List (Instr × ℕ)

abbrev pub at_depth : ℕ → List Instr → Stack
at_depth depth [] = []
at_depth depth (i ∷ is) = (i, depth) ∷ at_depth depth is

abbrev pub is_empty {ℓ} : {A : Type ℓ} → List A → Bool
is_empty [] = true
is_empty (x ∷ xs) = false

unfoldable pub find_block : Source → Digest → Result ResolveError Block
find_block store digest = elim (store digest) [ none ↦ err (missing digest) | some b ↦ ok b ]

-- The body of a block of the declared length, found at `depth`. `depth + 1` is below 2^64, since
-- `depth` is at most the limit, unless the limit is `usize::MAX`.
unfoldable pub open_body : BlockBody → ℕ → ℕ → List ℕ → Stack → Result ResolveError (List ℕ × Stack)
open_body (bytes b) len depth out stack =
    if length b == len then ok (out ++ b, stack) else err corrupt
open_body (program p) len depth out stack =
    if is_empty p then err corrupt else ok (out, at_depth (depth + 1) p ++ stack)

module _ (store : Source) (max_out max_depth : ℕ) where
  -- One round of the loop. The sum in the test of a reference is a sum of `u64`.
  unfoldable pub step : Instr → ℕ → List ℕ → Stack → Result ResolveError (List ℕ × Stack)
  step (lit b) depth out stack =
      if ltb max_out (length out + length b) then err (too_large max_out) else ok (out ++ b, stack)
  step (ref digest len) depth out stack =
      if ltb max_depth depth
      then err (too_deep max_depth)
      else if ltb max_out ((length out + len) % u64_mod)
      then err (too_large max_out)
      else do
        block ← find_block store digest
        guard (block.len == len) corrupt
        open_body block.body len depth out stack

  unfoldable pub resolve_loop : ℕ → List ℕ → Stack → Result ResolveError (List ℕ)
  resolve_loop fuel out [] = ok out
  resolve_loop zero out (x ∷ stack) = err out_of_fuel
  resolve_loop (suc fuel) out ((instr, depth) ∷ stack) = do
    (out', stack') ← step instr depth out stack
    resolve_loop fuel out' stack'

  -- The digests that a round looks up in the store.
  unfoldable pub step_reads : Instr → ℕ → List ℕ → List Digest
  step_reads (lit b) depth out = []
  step_reads (ref digest len) depth out =
      if ltb max_depth depth || ltb max_out ((length out + len) % u64_mod) then [] else digest ∷ []

  unfoldable pub reads_loop : ℕ → List ℕ → Stack → List Digest
  reads_loop fuel out [] = []
  reads_loop zero out (x ∷ stack) = []
  reads_loop (suc fuel) out ((instr, depth) ∷ stack) =
      step_reads instr depth out
      ++ elim (step instr depth out stack) [ ok p ↦ reads_loop fuel p.0 p.1 | err e ↦ [] ]

-- The rounds that an instruction takes when references may nest `room` deep.
abbrev pub sum_rounds : (Instr → ℕ) → List Instr → ℕ
sum_rounds f [] = 0
sum_rounds f (i ∷ is) = f i + sum_rounds f is

unfoldable pub rounds : Source → ℕ → Instr → ℕ
rounds store room (lit b) = 1
rounds store zero (ref d n) = 1
rounds store (suc room) (ref d n) = suc (elim (store d) [
  | none ↦ 0
  | some b ↦ elim b.body [ bytes x ↦ 0 | program p ↦ sum_rounds (rounds store room) p ]
])

unfoldable pub resolve : Source → List Instr → ℕ → ℕ → Result ResolveError (List ℕ)
resolve store instrs max_out max_depth =
    resolve_loop store max_out max_depth (sum_rounds (rounds store max_depth) instrs) []
      (at_depth 1 instrs)

-- The digests that `resolve` looks up, in order.
unfoldable pub resolve_reads : Source → List Instr → ℕ → ℕ → List Digest
resolve_reads store instrs max_out max_depth =
    reads_loop store max_out max_depth (sum_rounds (rounds store max_depth) instrs) []
      (at_depth 1 instrs)

-- The digests that a program refers to, the last one first.
unfoldable pub refs_rev : List Instr → List Digest → List Digest
refs_rev [] stack = stack
refs_rev (lit b ∷ is) stack = refs_rev is stack
refs_rev (ref d n ∷ is) stack = refs_rev is (d ∷ stack)

unfoldable pub contains : List Digest → Digest → Bool
contains [] d = false
contains (x ∷ xs) d = bytes_eq x d || contains xs d

unfoldable pub push_children : Option Block → List Digest → List Digest
push_children none stack = stack
push_children (some b) stack = elim b.body [ bytes x ↦ stack | program p ↦ refs_rev p stack ]

-- `budget` is `limit - out.len()`. A round takes the top off the stack or spends budget.
module _ (store : Source) (peer : Digest → Bool) where
  unfoldable pub missing_loop : ℕ → List Digest → List Digest → List Digest → List Digest
  missing_loop budget seen out [] = out
  missing_loop zero seen out (d ∷ stack) = elim (contains seen d || peer d) [
    | true ↦ missing_loop zero seen out stack
    | false ↦ out
  ]
  missing_loop (suc budget) seen out (d ∷ stack) = elim (contains seen d || peer d) [
    | true ↦ missing_loop (suc budget) seen out stack
    | false ↦
        missing_loop budget (seen ++ (d ∷ [])) (out ++ (d ∷ [])) (push_children (store d) stack)
  ]

  unfoldable pub missing_blocks : List Instr → ℕ → List Digest
  missing_blocks instrs limit = missing_loop limit [] [] (refs_rev instrs [])
