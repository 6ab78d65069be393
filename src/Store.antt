-- ===== src/Store.antt =====
-- crates/muka-store/src/lib.rs: the content-addressed store and its eviction.
-- The hash map is an association list; the lock is not modelled, since each operation holds it
-- throughout or only between independent steps. The clock is the argument `now`.
pub mod Entries
pub mod Invariant
use muka_ai_trim.Common.{
  ℕ, zero, suc, ◌+◌, ◌-◌, ◌%◌, Bool, true, false, ◌&&◌, ◌||◌, not, Option, none, some, List, [],
  ◌∷◌, ◌++◌, ltb, leb, ◌==◌, if◌then◌else◌, length, u64_mod, bytes_eq,
}
use muka_ai_trim.Digest.{Digest, BlockKind, digest_of}
use muka_ai_trim.Program.{BlockBody, bytes, program, Block, total_len}
use muka_ai_trim.Resolve.{contains}

pub record Config : Type 0 where
  pub max_bytes : ℕ
  pub max_blocks : ℕ
  pub ttl_secs : ℕ
  pub max_block_bytes : ℕ

-- `200 << 20`
abbrev pub memory_limit_bytes : ℕ
memory_limit_bytes = 209_715_200

abbrev pub default_config : Config
default_config = record {
  max_bytes = memory_limit_bytes;
  max_blocks = 2_000_000;
  ttl_secs = 1_209_600;
  max_block_bytes = memory_limit_bytes;
}

pub record Stats : Type 0 where
  pub blocks : ℕ
  pub bytes : ℕ
  pub hits : ℕ
  pub misses : ℕ
  pub stored : ℕ
  pub stored_bytes : ℕ
  pub evictions : ℕ
  pub rejected : ℕ

pub record Entry : Type 0 where
  pub len : ℕ
  pub kind : BlockKind
  pub seq : ℕ
  pub at : ℕ
  pub body : BlockBody

abbrev pub Entries : Type 0
Entries = List (Digest × Entry)

pub record Inner : Type 0 where
  pub map : Entries
  pub seq : ℕ
  pub total : ℕ
  pub stats : Stats

abbrev pub no_stats : Stats
no_stats = record {
  blocks = 0;
  bytes = 0;
  hits = 0;
  misses = 0;
  stored = 0;
  stored_bytes = 0;
  evictions = 0;
  rejected = 0;
}

abbrev pub empty_inner : Inner
empty_inner = record { map = []; seq = 0; total = 0; stats = no_stats }

unfoldable pub find_entry : Entries → Digest → Option Entry
find_entry [] d = none
find_entry ((k, e) ∷ m) d = if bytes_eq k d then some e else find_entry m d

unfoldable pub has : Inner → Digest → Bool
has g d = elim (find_entry g.map d) [ none ↦ false | some e ↦ true ]

-- `get_mut` and the two stores through it.
unfoldable pub refresh : Entries → Digest → ℕ → ℕ → Entries
refresh [] d seq at = []
refresh ((k, e) ∷ m) d seq at =
    if bytes_eq k d then (k, record e { seq = seq; at = at }) ∷ m else (k, e) ∷ refresh m d seq at

unfoldable pub inc : ℕ → ℕ
inc n = (n + 1) % u64_mod

unfoldable pub touch : ℕ → Digest → Inner → Inner
touch now d g =
    if has g d then record g { seq = inc g.seq; map = refresh g.map d (inc g.seq) now } else g

abbrev pub block_of : Digest → Entry → Block
block_of d e = record { digest = d; kind = e.kind; len = e.len; body = e.body }

unfoldable pub get : ℕ → Digest → Inner → Inner × Option Block
get now d g = elim (find_entry g.map d) [
  | none ↦ (record g { stats = record g.stats { misses = inc g.stats.misses } }, none)
  | some e ↦ (
    record g {
      seq = inc g.seq;
      map = refresh g.map d (inc g.seq) now;
      stats = record g.stats { hits = inc g.stats.hits };
    },
    some (block_of d e),
  )
]

-- The store behind a row of lookups.
unfoldable pub read_all : ℕ → List Digest → Inner → Inner
read_all now [] g = g
read_all now (d ∷ ds) g = read_all now ds (get now d g).0

-- `values().map(|e| e.len).sum()` on `u64`.
unfoldable pub total_of : Entries → ℕ
total_of [] = 0
total_of ((k, e) ∷ m) = (e.len + total_of m) % u64_mod

-- Entries past their time: `now.saturating_sub(e.at) > ttl_secs`.
unfoldable pub expired : ℕ → ℕ → Entries → List Digest
expired now ttl [] = []
expired now ttl ((k, e) ∷ m) =
    let older = expired now ttl m in if ltb ttl (now - e.at) then k ∷ older else older

-- The order of `(u64, Digest)`.
unfoldable pub bytes_le : List ℕ → List ℕ → Bool
bytes_le [] ys = true
bytes_le (x ∷ xs) [] = false
bytes_le (x ∷ xs) (y ∷ ys) = ltb x y || ((x == y) && bytes_le xs ys)

unfoldable pub before : Digest × Entry → Digest × Entry → Bool
before (d, e) (d', e') = ltb e.seq e'.seq || ((e.seq == e'.seq) && bytes_le d d')

unfoldable pub insert_sorted : Digest × Entry → Entries → Entries
insert_sorted x [] = x ∷ []
insert_sorted x (y ∷ ys) =
    let later = y ∷ insert_sorted x ys in if before x y then x ∷ y ∷ ys else later

unfoldable pub sort_by_seq : Entries → Entries
sort_by_seq [] = []
sort_by_seq (x ∷ xs) = insert_sorted x (sort_by_seq xs)

-- The eviction loop over the entries in order of use.
unfoldable pub evict_loop : ℕ → ℕ → List Digest → Entries → List Digest
evict_loop over_bytes over_count victims [] = victims
evict_loop over_bytes over_count victims ((d, e) ∷ es) =
    let skip = evict_loop over_bytes over_count victims es in
    let take_it = evict_loop (over_bytes - e.len) (over_count - 1) (victims ++ (d ∷ [])) es in
    if (over_bytes == 0) && (over_count == 0)
    then victims
    else if contains victims d
    then skip
    else take_it

unfoldable pub without : List Digest → Entries → Entries
without victims [] = []
without victims ((k, e) ∷ m) =
    let others = without victims m in if contains victims k then others else (k, e) ∷ others

module _ (cfg : Config) where
  unfoldable pub victims_of : ℕ → Inner → List Digest
  victims_of now g =
      let old : List Digest = if ltb 0 cfg.ttl_secs then expired now cfg.ttl_secs g.map else [] in
      let over_bytes : ℕ = g.total - cfg.max_bytes in
      let over_count : ℕ = length g.map - cfg.max_blocks in
      if ltb 0 over_bytes || ltb 0 over_count
      then evict_loop over_bytes over_count old (sort_by_seq g.map)
      else old

  unfoldable pub prune : ℕ → Inner → Inner
  prune now g =
      let map' : Entries = without (victims_of now g) g.map in
      record g {
        map = map';
        total = total_of map';
        stats = record g.stats {
          evictions = (g.stats.evictions + (length g.map - length map')) % u64_mod;
        };
      }

  -- The end of `insert`: evict if a ceiling is passed.
  unfoldable pub settle : ℕ → Inner → Inner × Bool
  settle now g =
      if ltb cfg.max_bytes g.total || ltb cfg.max_blocks (length g.map)
      then (prune now g, true)
      else (g, true)

  module _ (blake3 : List ℕ → List ℕ) where
    unfoldable pub verifies : BlockBody → BlockKind → Digest → ℕ → Bool
    verifies (bytes x) kind digest len =
        bytes_eq (digest_of blake3 kind x) digest && (length x == len)
    verifies (program p) kind digest len = total_len p == len

    unfoldable pub reject : Inner → Inner
    reject g = record g { stats = record g.stats { rejected = inc g.stats.rejected } }

    unfoldable pub add_entry : ℕ → Block → Inner → Inner
    add_entry now b g = record g {
      seq = inc g.seq;
      total = (g.total + b.len) % u64_mod;
      stats = record g.stats {
        stored = inc g.stats.stored;
        stored_bytes = (g.stats.stored_bytes + b.len) % u64_mod;
      };
      map =
          (
            b.digest,
            record { len = b.len; kind = b.kind; seq = inc g.seq; at = now; body = b.body },
          )
          ∷ g.map;
    }

    unfoldable pub insert : ℕ → Block → Inner → Inner × Bool
    insert now b g =
        if not (verifies b.body b.kind b.digest b.len)
        then (reject g, false)
        else if ltb cfg.max_block_bytes b.len
        then (reject g, false)
        else if has g b.digest
        then (g, false)
        else settle now (add_entry now b g)

unfoldable pub clear : Inner → Inner × ℕ
clear g = (
  record g {
    map = [];
    total = 0;
    stats = record g.stats { evictions = (g.stats.evictions + length g.map) % u64_mod };
  },
  length g.map,
)

unfoldable pub stats_of : Inner → Stats
stats_of g = record g.stats { blocks = length g.map; bytes = g.total }
