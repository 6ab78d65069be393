-- ===== src/Session/Lookups.antt =====
-- What the peer's store gives for a digest, before and after it takes a block
-- (crates/muka-store/src/lib.rs, as `rebuild` of crates/muka-gateway/src/session.rs reads it).
use muka_ai_trim.Common.{
  ℕ, zero, suc, ◌≡◌, ◌≢◌, inl, inr, refl, sym, ◌∙◌, arith, true, false, Option, none, some, List,
  [], ◌∷◌, length, if-holds, All, bytes_eq, bytes_eq_iff, bytes_eq_refl, Bool-cases,
}
use muka_ai_trim.Digest.{Digest}
use muka_ai_trim.Program.{Instr, lit, ref, BlockBody, bytes, program, Block}
use muka_ai_trim.Resolve.Complete.{CanOpen, CanResolve}
use muka_ai_trim.Resolve.{Source}
use muka_ai_trim.Session.{source}
use muka_ai_trim.Session.Reads.{found, found-refresh}
use muka_ai_trim.Store.{
  Config, Inner, Entry, Entries, find_entry, has, refresh, touch, block_of, add_entry, inc,
}

-- Whatever one store has, the other has too.
abbrev pub Extends : Source → Source → Type 0
Extends s s' = (d : Digest) (b : Block) → s d ≡ some b → s' d ≡ some b

module _ (content : Digest → List ℕ) (s s' : Source) (grows : Extends s s') where
  pub CanResolve-Extends :
      (room : ℕ) (i : Instr) → CanResolve content s room i → CanResolve content s' room i
  CanResolve-Extends room (lit b) h = tt
  CanResolve-Extends zero (ref d n) h = absurd h
  CanResolve-Extends (suc room) (ref d n) (b, found, len, le, opens) =
      (b, grows d b found, len, le, more b.body opens (λ i h. CanResolve-Extends room i h))
    where
      more_all :
          ((i : Instr) → CanResolve content s room i → CanResolve content s' room i)
          → (p : List Instr) → All (CanResolve content s room) p
          → All (CanResolve content s' room) p
      more_all step [] h = tt
      more_all step (i ∷ p) (h, hs) = (step i h, more_all step p hs)

      more :
          (x : BlockBody)
          → CanOpen content s (CanResolve content s room) x n
          → ((i : Instr) → CanResolve content s room i → CanResolve content s' room i)
          → CanOpen content s' (CanResolve content s' room) x n
      more (bytes x) h step = h
      more (program p) (some_p, h) step = (some_p, more_all step p h)

pub length-refresh :
    (m : Entries) (d : Digest) (seq at : ℕ) → length (refresh m d seq at) ≡ length m
unfolding refresh
length-refresh [] d seq at = refl
length-refresh ((k, e) ∷ m) d seq at = ground (arith, length-refresh m d seq at)

-- What the store has under a digest, and whether it has something.
pub source-has : (g : Inner) (d : Digest) (b : Block) → source g d ≡ some b → has g d ≡ true
unfolding source has
source-has g d b e = at_entry (find_entry g.map d) e
  where
    at_entry :
        (o : Option Entry)
        → ◌≡◌ {A = Option Block} (elim o [ none ↦ none | some x ↦ some (block_of d x) ]) (some b)
        → (elim o [ none ↦ false | some x ↦ true ]) ≡ true
    at_entry none k = cc
    at_entry (some x) k = refl

source-absent : (g : Inner) (d : Digest) → has g d ≡ false → source g d ≡ none
unfolding source has
source-absent g d e = at_entry (find_entry g.map d) e
  where
    at_entry :
        (o : Option Entry)
        → (elim o [ none ↦ false | some x ↦ true ]) ≡ false
        → ◌≡◌ {A = Option Block} (elim o [ none ↦ none | some x ↦ some (block_of d x) ]) none
    at_entry none k = refl
    at_entry (some x) k = cc

has-source : (g : Inner) (d : Digest) → has g d ≡ true → (b : Block) × (source g d ≡ some b)
unfolding source has
has-source g d e = at_entry (find_entry g.map d) e
  where
    at_entry :
        (o : Option Entry)
        → (elim o [ none ↦ false | some x ↦ true ]) ≡ true
        → (b : Block) × ◌≡◌ {A = Option Block}
            (elim o [ none ↦ none | some x ↦ some (block_of d x) ])
            (some b)
    at_entry none k = cc
    at_entry (some x) k = (block_of d x, refl)

pub has-eq :
    (g g' : Inner) (d : Digest) → source g' d ≡ source g d → has g' d ≡ true → has g d ≡ true
has-eq g g' d e h = let (b, q) = has-source g' d h in source-has g d b (sym e ∙ q)

pub source-touch :
    (now : ℕ) (k : Digest) (g : Inner) (d : Digest) → source (touch now k g) d ≡ source g d
unfolding touch source
source-touch now k g d =
    if-holds (λ (r : Inner). found r.map d ≡ found g.map d) (has g k)
      (found-refresh g.map k (inc g.seq) now d) refl

module _ (cfg : Config) (blake3 : List ℕ → List ℕ) (now : ℕ) where
  pub source-add_entry_same :
      (b : Block) (g : Inner) → source (add_entry cfg blake3 now b g) b.digest ≡ some b
  unfolding source add_entry find_entry
  source-add_entry_same b g = rw (bytes_eq_refl b.digest, source, find_entry) refl

  pub source-add_entry_other :
      (b : Block) (g : Inner) (d : Digest)
      → b.digest ≢ d
      → source (add_entry cfg blake3 now b g) d ≡ source g d
  unfolding source add_entry find_entry
  source-add_entry_other b g d other = elim (Bool-cases (bytes_eq b.digest d)) [
    | inl same ↦ absurd (other ((bytes_eq_iff b.digest d).0 same))
    | inr differ ↦ rw (differ, source, find_entry) refl
  ]
