-- ===== src/Session/Reads.antt =====
-- The lookups of `rebuild` in the store (crates/muka-gateway/src/session.rs).
use muka_ai_trim.Common.{
  ℕ, Bool, true, false, Option, none, some, List, [], ◌∷◌, ◌≡◌, refl, ◌∙◌, bytes_eq, Bool-cases,
  inl, inr, if◌then◌else◌,
}
use muka_ai_trim.Digest.{Digest}
use muka_ai_trim.Program.{Block}
use muka_ai_trim.Store.{Entry, Entries, Inner, find_entry, refresh, get, read_all, block_of, inc}
use muka_ai_trim.Session.{source}

-- The block that an entry list has under a digest.
abbrev pub found : Entries → Digest → Option Block
found m d = elim (find_entry m d) [ none ↦ none | some e ↦ some (block_of d e) ]

pub found-refresh :
    (m : Entries) (k : Digest) (seq at : ℕ) (d : Digest) → found (refresh m k seq at) d ≡ found m d
unfolding find_entry refresh
found-refresh [] k seq at d = refl
found-refresh ((x, e) ∷ m) k seq at d = elim (Bool-cases (bytes_eq x k)) [
  | inl hit ↦ rw (hit, refresh) (at_head (bytes_eq x d))
  | inr miss ↦ rw (miss, refresh) (behind (bytes_eq x d) (found-refresh m k seq at d))
]
  where
    at_head :
        (t : Bool)
        → (elim (if t then some (record e { seq = seq; at = at }) else find_entry m d) [
          | none ↦ none
          | some e ↦ some (block_of d e)
        ])
          ≡ (elim (if t then some e else find_entry m d) [
            | none ↦ none
            | some e ↦ some (block_of d e)
          ])
    at_head true = refl
    at_head false = refl

    behind :
        (t : Bool)
        → found (refresh m k seq at) d ≡ found m d
        → (elim (if t then some e else find_entry (refresh m k seq at) d) [
          | none ↦ none
          | some e ↦ some (block_of d e)
        ])
          ≡ (elim (if t then some e else find_entry m d) [
            | none ↦ none
            | some e ↦ some (block_of d e)
          ])
    behind true h = refl
    behind false h = h

source-get : (now : ℕ) (k : Digest) (g : Inner) (d : Digest) → source (get now k g).0 d ≡ source g d
unfolding source get
source-get now k g d = at_entry (find_entry g.map k)
  where
    looked : Option Entry → Inner × Option Block
    looked o = elim o [
      | none ↦ (record g { stats = record g.stats { misses = inc g.stats.misses } }, none)
      | some e ↦ (
        record g {
          seq = inc g.seq;
          map = refresh g.map k (inc g.seq) now;
          stats = record g.stats { hits = inc g.stats.hits };
        },
        some (block_of k e),
      )
    ]

    at_entry : (o : Option Entry) → found (looked o).0.map d ≡ found g.map d
    at_entry none = refl
    at_entry (some e) = found-refresh g.map k (inc g.seq) now d

-- Whatever is looked up, the store has the same block under each digest afterwards.
pub source-read_all :
    (now : ℕ) (ks : List Digest) (g : Inner) (d : Digest)
    → source (read_all now ks g) d ≡ source g d
unfolding read_all
source-read_all now [] g d = refl
source-read_all now (k ∷ ks) g d = source-read_all now ks (get now k g).0 d ∙ source-get now k g d
