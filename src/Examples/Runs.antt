-- ===== src/Examples/Runs.antt =====
-- The resolver and the store at concrete inputs.
use muka_ai_trim.Common.{
  ℕ, List, [], ◌∷◌, ◌≡◌, refl, ok, err, some, none, arith, length, true, false, if◌then◌else◌,
  bytes_eq, bytes_eq_iff, All, Bool-cases, inl, inr, ◌≤◌, ◌<◌, ◌^◌, ◌≢◌, subst, sym, drop,
}
use muka_ai_trim.Digest.{Digest, raw}
use muka_ai_trim.Program.{Instr, lit, ref, Block, bytes, program}
use muka_ai_trim.Program.Meaning.{expand, body_bytes}
use muka_ai_trim.Resolve.{
  Source, resolve, out_of_fuel, missing_blocks, missing_loop, refs_rev, contains, push_children,
  resolve_loop, step, open_body, find_block, rounds,
}
use muka_ai_trim.Resolve.Sound.{IsFaithful, resolve-eq-expand}
use muka_ai_trim.Resolve.Complete.{CanResolve, resolve_complete}
use muka_ai_trim.Resolve.Total.{resolve-ne-out_of_fuel}
use muka_ai_trim.Resolve.Bounds.{IsAllocated, length-resolve, body_length}
use muka_ai_trim.Resolve.Missing.{
  missing_blocks_bounds, missing_blocks_closed, IsCovered, HasChildren,
}
use muka_ai_trim.Session.{source}
use muka_ai_trim.Session.Reads.{source-read_all}
use muka_ai_trim.Store.{Inner, insert, read_all, default_config, empty_inner}
use muka_ai_trim.Store.Invariant.{
  IsStore, op_insert, op_get, op_prune, apply_all, apply_all-empty-IsStore,
}

abbrev inner : Digest
inner = 1 ∷ []

abbrev outer : Digest
outer = 2 ∷ []

abbrev inner_block : Block
inner_block = record { digest = inner; kind = raw; len = 2; body = bytes (104 ∷ 105 ∷ []) }

abbrev outer_block : Block
outer_block = record {
  digest = outer;
  kind = raw;
  len = 3;
  body = program (lit (33 ∷ []) ∷ ref inner 2 ∷ []);
}

abbrev shelf : Source
shelf d =
    if bytes_eq d inner
    then some inner_block
    else if bytes_eq d outer
    then some outer_block
    else none

-- What the two digests name; any other names nothing.
abbrev named : Digest → List ℕ
named d =
    if bytes_eq d inner
    then 104 ∷ 105 ∷ []
    else if bytes_eq d outer
    then 33 ∷ 104 ∷ 105 ∷ []
    else []

abbrev asked : List Instr
asked = lit (60 ∷ []) ∷ ref outer 3 ∷ ref inner 2 ∷ []

found_inner :
    (d : Digest) (b : Block) → bytes_eq d inner ≡ true → shelf d ≡ some b → inner_block ≡ b
found_inner d b e h = ground arith

found_outer :
    (d : Digest) (b : Block)
    → bytes_eq d inner ≡ false
    → bytes_eq d outer ≡ true
    → shelf d ≡ some b
    → outer_block ≡ b
found_outer d b n e h = ground arith

found_none :
    (d : Digest) (b : Block)
    → bytes_eq d inner ≡ false
    → bytes_eq d outer ≡ false
    → shelf d ≢ some b
found_none d b n m h = ground arith

shelf_cases :
    (P : Digest → Block → Type 0)
    → P inner inner_block
    → P outer outer_block
    → (d : Digest) (b : Block) → shelf d ≡ some b
    → P d b
shelf_cases P hi ho d b h = elim (Bool-cases (bytes_eq d inner)) [
  | inl e ↦
      let q : inner ≡ d = sym ((bytes_eq_iff d inner).0 e) in
      subst (λ b. P d b) (found_inner d b e h) (subst (λ d. P d inner_block) q hi)
  | inr n ↦ elim (Bool-cases (bytes_eq d outer)) [
    | inl e ↦
        let q : outer ≡ d = sym ((bytes_eq_iff d outer).0 e) in
        subst (λ b. P d b) (found_outer d b n e h) (subst (λ d. P d outer_block) q ho)
    | inr m ↦ absurd (found_none d b n m h)
  ]
]

inner_same : body_bytes named inner_block.body ≡ named inner
unfolding bytes_eq
inner_same = refl

outer_same : body_bytes named outer_block.body ≡ named outer
unfolding bytes_eq
outer_same = refl

shelf-IsFaithful : IsFaithful named shelf
shelf-IsFaithful = record {
  agrees = shelf_cases (λ d b. body_bytes named b.body ≡ named d) inner_same outer_same;
}

shelf-IsAllocated : IsAllocated shelf
shelf-IsAllocated = record {
  small = shelf_cases (λ d b. body_length b.body < 2 ^ 63) (omega arith) (omega arith);
}

can : All (CanResolve named shelf 4) asked
unfolding bytes_eq
can = (
  tt,
  (
    (
      outer_block,
      refl,
      refl,
      omega arith,
      (refl, (tt, ((inner_block, refl, refl, omega arith, refl), tt))),
    ),
    ((inner_block, refl, refl, omega arith, refl), tt),
  ),
)

short : length (expand named asked) ≤ 20
unfolding bytes_eq
short = omega arith

room : length (missing_blocks shelf (λ d. false) asked 9) < 9
unfolding missing_blocks missing_loop refs_rev contains push_children bytes_eq
room = omega arith

resolved : resolve shelf asked 20 4 ≡ ok (60 ∷ 33 ∷ 104 ∷ 105 ∷ 104 ∷ 105 ∷ [])
unfolding resolve resolve_loop step open_body find_block rounds bytes_eq
resolved = refl

sound_example : (60 ∷ 33 ∷ 104 ∷ 105 ∷ 104 ∷ 105 ∷ []) ≡ expand named asked
sound_example =
    resolve-eq-expand named shelf 20 4 shelf-IsFaithful asked (60 ∷ 33 ∷ 104 ∷ 105 ∷ 104 ∷ 105 ∷ [])
      resolved

complete_example : resolve shelf asked 20 4 ≡ ok (expand named asked)
complete_example = resolve_complete named shelf 20 4 (omega arith) shelf-IsFaithful asked can short

total_example : resolve shelf asked 20 4 ≢ err out_of_fuel
total_example = resolve-ne-out_of_fuel shelf 20 4 asked

length_example : 6 ≤ 20
length_example =
    length-resolve shelf 20 4 (omega arith) shelf-IsAllocated asked
      (60 ∷ 33 ∷ 104 ∷ 105 ∷ 104 ∷ 105 ∷ []) resolved

bounds_example :
    (length (missing_blocks shelf (λ d. false) asked 9) ≤ 9)
    × All (λ d. false ≡ false) (missing_blocks shelf (λ d. false) asked 9)
bounds_example = missing_blocks_bounds shelf (λ d. false) asked 9

closed_example :
    All
      (IsCovered shelf (λ d. false) (missing_blocks shelf (λ d. false) asked 9))
      (refs_rev asked [])
    × All
        (HasChildren shelf (λ d. false) (missing_blocks shelf (λ d. false) asked 9))
        (missing_blocks shelf (λ d. false) asked 9)
closed_example = missing_blocks_closed shelf (λ d. false) asked 9 room

store_example : IsStore default_config (drop 21) (
    apply_all default_config
      (drop 21)
      (op_insert 5 inner_block ∷ op_insert 6 outer_block ∷ op_get 7 outer ∷ op_prune 8 ∷ [])
      empty_inner)
store_example =
    apply_all-empty-IsStore default_config (drop 21)
      (op_insert 5 inner_block ∷ op_insert 6 outer_block ∷ op_get 7 outer ∷ op_prune 8 ∷ [])

abbrev stocked : Inner
stocked = (insert default_config (drop 21) 4 inner_block empty_inner).0

reads_example : source (read_all 9 (outer ∷ inner ∷ []) stocked) inner ≡ source stocked inner
reads_example = source-read_all 9 (outer ∷ inner ∷ []) stocked inner
