-- ===== src/Splitter/Distinct.antt =====
-- Blocks that all have digests of their own (crates/muka-split/src/splitter.rs).
use muka_ai_trim.Common.{
  ◌≡◌, ◌≢◌, inl, inr, true, false, List, [], ◌∷◌, ◌++◌, All, All-append, Bool-cases, bytes_eq,
  bytes_eq_iff,
}
use muka_ai_trim.Digest.{Digest}
use muka_ai_trim.Program.{Block}
use muka_ai_trim.Resolve.{contains}
use muka_ai_trim.Splitter.Blocks.{digests}

-- No two blocks have the same digest.
abbrev pub IsDistinct : List Block → Type 0
IsDistinct [] = Unit
IsDistinct (b ∷ bs) = All (λ x. b.digest ≢ x.digest) bs × IsDistinct bs

pub absent-All :
    (bs : List Block) (d : Digest) → contains (digests bs) d ≡ false → All (λ x. x.digest ≢ d) bs
unfolding contains
absent-All [] d h = tt
absent-All (b ∷ bs) d h = elim (Bool-cases (bytes_eq b.digest d)) [
  | inl same ↦ let clash : true ≡ false = rw same at h in cc
  | inr other ↦ (
    λ e. let same : bytes_eq b.digest d ≡ true = (bytes_eq_iff b.digest d).1 e in cc,
    absent-All bs d (rw other at h),
  )
]

pub IsDistinct-append :
    (bs : List Block) (b : Block)
    → IsDistinct bs
    → All (λ x. x.digest ≢ b.digest) bs
    → IsDistinct (bs ++ (b ∷ []))
IsDistinct-append [] b h n = (tt, tt)
IsDistinct-append (x ∷ bs) b (hx, h) (n, ns) =
    (All-append (λ y. x.digest ≢ y.digest) bs (b ∷ []) hx (n, tt), IsDistinct-append bs b h ns)
