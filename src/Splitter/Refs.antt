-- ===== src/Splitter/Refs.antt =====
-- What the references of programs and blocks have in common (crates/muka-split/src/program.rs).
use muka_ai_trim.Common.{ℕ, List, [], ◌∷◌, ◌++◌, All}
use muka_ai_trim.Digest.{Digest}
use muka_ai_trim.Program.{
  Instr, lit, ref, BlockBody, bytes, program, Block, push_instr, normalize_loop, normalize,
}

-- The references of a program, each with its length, have a property.
abbrev pub AllRefs : (Digest → ℕ → Type 0) → List Instr → Type 0
AllRefs P [] = Unit
AllRefs P (lit b ∷ is) = AllRefs P is
AllRefs P (ref d n ∷ is) = P d n × AllRefs P is

module _ (P : Digest → ℕ → Type 0) where
  pub AllRefs-append : (xs ys : List Instr) → AllRefs P xs → AllRefs P ys → AllRefs P (xs ++ ys)
  AllRefs-append [] ys h k = k
  AllRefs-append (lit b ∷ xs) ys h k = AllRefs-append xs ys h k
  AllRefs-append (ref d n ∷ xs) ys (p, h) k = (p, AllRefs-append xs ys h k)

  AllRefs-push_instr :
      (out : List Instr) (i : Instr)
      → AllRefs P out
      → AllRefs P (i ∷ [])
      → AllRefs P (push_instr out i)
  unfolding push_instr
  AllRefs-push_instr [] (lit []) h k = tt
  AllRefs-push_instr [] (lit (x ∷ r)) h k = tt
  AllRefs-push_instr [] (ref d n) h k = k
  AllRefs-push_instr (lit p ∷ []) (lit b) h k = tt
  AllRefs-push_instr (lit p ∷ []) (ref d n) h k = k
  AllRefs-push_instr (ref e m ∷ []) (lit []) h k = h
  AllRefs-push_instr (ref e m ∷ []) (lit (x ∷ r)) (h, _) k = (h, tt)
  AllRefs-push_instr (ref e m ∷ []) (ref d n) (h, _) (k, _) = (h, (k, tt))
  AllRefs-push_instr (lit a ∷ b ∷ out) i h k = AllRefs-push_instr (b ∷ out) i h k
  AllRefs-push_instr (ref d n ∷ b ∷ out) i (p, h) k = (p, AllRefs-push_instr (b ∷ out) i h k)

  AllRefs-normalize_loop :
      (out is : List Instr) → AllRefs P out → AllRefs P is → AllRefs P (normalize_loop out is)
  unfolding normalize_loop
  AllRefs-normalize_loop out [] h k = h
  AllRefs-normalize_loop out (lit b ∷ is) h k =
      AllRefs-normalize_loop (push_instr out (lit b)) is (AllRefs-push_instr out (lit b) h tt) k
  AllRefs-normalize_loop out (ref d n ∷ is) h (p, k) =
      AllRefs-normalize_loop (push_instr out (ref d n)) is
        (AllRefs-push_instr out (ref d n) h (p, tt)) k

  pub AllRefs-normalize : (is : List Instr) → AllRefs P is → AllRefs P (normalize is)
  unfolding normalize
  AllRefs-normalize is h = AllRefs-normalize_loop [] is tt h

-- The digests that a program refers to have a property.
abbrev pub InRefs : (Digest → Type 0) → List Instr → Type 0
InRefs P is = AllRefs (λ d n. P d) is

abbrev pub InBody : (Digest → Type 0) → BlockBody → Type 0
InBody P (bytes x) = Unit
InBody P (program p) = InRefs P p

abbrev pub InBlock : (Digest → Type 0) → Block → Type 0
InBlock P b = InBody P b.body

module _ (P : Digest → Type 0) where
  pub InRefs-append : (xs ys : List Instr) → InRefs P xs → InRefs P ys → InRefs P (xs ++ ys)
  InRefs-append xs ys h k = AllRefs-append (λ d n. P d) xs ys h k

  pub InRefs-normalize : (is : List Instr) → InRefs P is → InRefs P (normalize is)
  InRefs-normalize is h = AllRefs-normalize (λ d n. P d) is h

  pub InRefs-map :
      (Q : Digest → Type 0)
      → ((d : Digest) → P d → Q d)
      → (is : List Instr) → InRefs P is
      → InRefs Q is
  InRefs-map Q f [] h = tt
  InRefs-map Q f (lit b ∷ is) h = InRefs-map Q f is h
  InRefs-map Q f (ref d n ∷ is) (p, h) = (f d p, InRefs-map Q f is h)

  pub InBlocks-map :
      (Q : Digest → Type 0)
      → ((d : Digest) → P d → Q d)
      → (bs : List Block) → All (InBlock P) bs
      → All (InBlock Q) bs
  InBlocks-map Q f [] h = tt
  InBlocks-map Q f (b ∷ bs) (h, hs) = (at_body b.body h, InBlocks-map Q f bs hs)
    where
      at_body : (x : BlockBody) → InBody P x → InBody Q x
      at_body (bytes x) h = tt
      at_body (program p) h = InRefs-map Q f p h
