-- ===== src/Program/Normal.antt =====
-- `normalize` of crates/muka-split/src/program.rs.
use muka_ai_trim.Common.{ℕ, List, [], ◌∷◌, ◌++◌, ◌≡◌, refl, append_assoc, append-nil, sym}
use muka_ai_trim.Digest.{Digest}
use muka_ai_trim.Program.{Instr, lit, ref, push_instr, normalize_loop, normalize}
use muka_ai_trim.Program.Meaning.{expand, instr_bytes}

module _ (content : Digest → List ℕ) where
  expand-push_instr :
      (out : List Instr) (i : Instr)
      → expand content (push_instr out i) ≡ expand content out ++ instr_bytes content i
  unfolding push_instr
  expand-push_instr [] (lit []) = refl
  expand-push_instr [] (lit (x ∷ r)) = append-nil _
  expand-push_instr [] (ref d n) = append-nil _
  expand-push_instr (lit p ∷ []) (lit b) = simp (append-nil)
  expand-push_instr (lit p ∷ []) (ref d n) = simp (append-nil)
  expand-push_instr (ref e m ∷ []) (lit []) = simp (append-nil)
  expand-push_instr (ref e m ∷ []) (lit (x ∷ r)) = simp (append-nil)
  expand-push_instr (ref e m ∷ []) (ref d n) = simp (append-nil)
  expand-push_instr (a ∷ b ∷ out) i = simp (expand-push_instr (b ∷ out) i, append_assoc)

  expand-normalize_loop :
      (out is : List Instr)
      → expand content (normalize_loop out is) ≡ expand content out ++ expand content is
  unfolding normalize_loop
  expand-normalize_loop out [] = sym (append-nil _)
  expand-normalize_loop out (i ∷ is) =
      rw (expand-normalize_loop (push_instr out i) is, expand-push_instr out i, append_assoc)

  -- Whatever bytes the digests name, a program and its normal form stand for the same bytes.
  pub expand-normalize : (is : List Instr) → expand content (normalize is) ≡ expand content is
  unfolding normalize
  expand-normalize is = expand-normalize_loop [] is

-- No literal is empty, and no literal follows a literal.
abbrev pub IsNormal : List Instr → Type 0
IsNormal [] = Unit
IsNormal (ref d n ∷ is) = IsNormal is
IsNormal (lit [] ∷ is) = ⊥
IsNormal (lit (x ∷ r) ∷ []) = Unit
IsNormal (lit (x ∷ r) ∷ lit b ∷ is) = ⊥
IsNormal (lit (x ∷ r) ∷ ref d n ∷ is) = IsNormal is

after_ref :
    (x : ℕ) (r : List ℕ) (e : Digest) (m : ℕ) (i : Instr)
    → IsNormal (lit (x ∷ r) ∷ push_instr (ref e m ∷ []) i)
unfolding push_instr
after_ref x r e m (lit []) = tt
after_ref x r e m (lit (y ∷ s)) = tt
after_ref x r e m (ref d n) = tt

push_instr-IsNormal : (out : List Instr) (i : Instr) → IsNormal out → IsNormal (push_instr out i)
unfolding push_instr
push_instr-IsNormal [] (lit []) h = tt
push_instr-IsNormal [] (lit (x ∷ r)) h = tt
push_instr-IsNormal [] (ref d n) h = tt
push_instr-IsNormal (lit [] ∷ out) i h = elim h [ ]
push_instr-IsNormal (lit (x ∷ r) ∷ []) (lit b) h = tt
push_instr-IsNormal (lit (x ∷ r) ∷ []) (ref d n) h = tt
push_instr-IsNormal (lit (x ∷ r) ∷ lit b ∷ out) i h = elim h [ ]
push_instr-IsNormal (lit (x ∷ r) ∷ ref e m ∷ []) i h = after_ref x r e m i
push_instr-IsNormal (lit (x ∷ r) ∷ ref e m ∷ b ∷ out) i h = push_instr-IsNormal (b ∷ out) i h
push_instr-IsNormal (ref e m ∷ []) (lit []) h = tt
push_instr-IsNormal (ref e m ∷ []) (lit (x ∷ r)) h = tt
push_instr-IsNormal (ref e m ∷ []) (ref d n) h = tt
push_instr-IsNormal (ref e m ∷ b ∷ out) i h = push_instr-IsNormal (b ∷ out) i h

normalize_loop-IsNormal : (out is : List Instr) → IsNormal out → IsNormal (normalize_loop out is)
unfolding normalize_loop
normalize_loop-IsNormal out [] h = h
normalize_loop-IsNormal out (i ∷ is) h =
    normalize_loop-IsNormal (push_instr out i) is (push_instr-IsNormal out i h)

-- `normalize` leaves no empty literal and no two literals side by side.
pub normalize-IsNormal : (is : List Instr) → IsNormal (normalize is)
unfolding normalize
normalize-IsNormal is = normalize_loop-IsNormal [] is tt
