-- ===== src/Program/Meaning.antt =====
-- The bytes that a program stands for, once each digest names some bytes.
use muka_ai_trim.Common.{ℕ, List, [], ◌∷◌, ◌++◌, ◌≡◌, refl, append_assoc}
use muka_ai_trim.Digest.{Digest}
use muka_ai_trim.Program.{Instr, lit, ref, BlockBody, bytes, program}

module _ (content : Digest → List ℕ) where
  abbrev pub instr_bytes : Instr → List ℕ
  instr_bytes (lit b) = b
  instr_bytes (ref d n) = content d

  abbrev pub expand : List Instr → List ℕ
  expand [] = []
  expand (i ∷ is) = instr_bytes i ++ expand is

  abbrev pub body_bytes : BlockBody → List ℕ
  body_bytes (bytes b) = b
  body_bytes (program p) = expand p

  pub expand-append : (xs ys : List Instr) → expand (xs ++ ys) ≡ expand xs ++ expand ys
  expand-append [] ys = refl
  expand-append (i ∷ xs) ys = rw (expand-append xs ys, append_assoc)
