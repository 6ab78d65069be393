-- ===== src/Examples/Split.antt =====
-- A hash, and a peer that has exactly the given blocks, for the runs of a split.
use muka_ai_trim.Common.{
  ℕ, List, [], ◌∷◌, ◌≡◌, some, none, arith, drop, All, if◌then◌else◌, bytes_eq, bytes_eq_iff,
}
use muka_ai_trim.Digest.{Digest}
use muka_ai_trim.Program.{Block}
use muka_ai_trim.Program.Meaning.{body_bytes}
use muka_ai_trim.Resolve.{Source}
use muka_ai_trim.Splitter.{new_builder, SplitOutput, Action, split, passthrough}
use muka_ai_trim.Splitter.Blocks.{IsTrue}

-- A hash that gives back what it was fed, less the domain, the kind and the length.
abbrev pub hash : List ℕ → List ℕ
hash = drop 21

abbrev pub out_of : Action → SplitOutput
out_of (split o) = o
out_of (passthrough s) = record {
  instrs = [];
  to_push = [];
  stats = (new_builder {S = List Block} [] []).stats;
}

-- A peer that has exactly the given blocks.
abbrev pub shelf_of : List Block → Source
shelf_of [] d = none
shelf_of (b ∷ bs) d = if bytes_eq b.digest d then some b else shelf_of bs d

pub shelf_of-agrees :
    (bs : List Block)
    → All (IsTrue (λ d. d)) bs
    → (d : Digest) (b : Block) → shelf_of bs d ≡ some b
    → body_bytes (λ d. d) b.body ≡ d
shelf_of-agrees [] h d b e = cc
shelf_of-agrees (x ∷ bs) (t, h) d b e =
    ground (arith, (bytes_eq_iff x.digest d).0, t.stands, shelf_of-agrees bs h d b)
