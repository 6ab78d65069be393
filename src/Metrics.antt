-- ===== src/Metrics.antt =====
-- crates/muka-gateway/src/metrics.rs: the counters, the log of recent turns and their groups. Texts are
-- their bytes. Left out: ratios, which are floats, and the pages.
pub mod Log
pub mod Groups
use muka_ai_trim.Common.{
  ℕ, zero, suc, ◌+◌, ◌-◌, ◌/◌, ◌%◌, max, Bool, true, false, ◌&&◌, ◌||◌, Option, none, some, List,
  [], ◌∷◌, ◌++◌, ltb, ◌==◌, if◌then◌else◌, length, drop, u64_mod, bytes_eq,
}
use muka_ai_trim.Digest.{codes}
use muka_ai_trim.Store.{bytes_le}
use Prim.Native.String.{String}

pub record Counters : Type 0 where
  pub requests : ℕ
  pub split_requests : ℕ
  pub passthrough : ℕ
  pub body_bytes : ℕ
  pub wire_bytes : ℕ
  pub refs : ℕ
  pub refs_hit : ℕ
  pub blocks_pushed : ℕ
  pub repairs : ℕ
  pub rebuilds : ℕ
  pub rebuild_failures : ℕ
  pub upstream_errors : ℕ
  pub link_errors : ℕ
  pub response_bytes : ℕ
  pub link_us : ℕ
  pub upstream_us : ℕ
  pub io_errors : ℕ

pub record Snapshot : Type 0 where
  pub requests : ℕ
  pub split_requests : ℕ
  pub passthrough : ℕ
  pub body_bytes : ℕ
  pub wire_bytes : ℕ
  pub refs : ℕ
  pub refs_hit : ℕ
  pub blocks_pushed : ℕ
  pub repairs : ℕ
  pub rebuilds : ℕ
  pub rebuild_failures : ℕ
  pub upstream_errors : ℕ
  pub link_errors : ℕ
  pub response_bytes : ℕ
  pub link_ms : ℕ
  pub upstream_ms : ℕ

unfoldable pub snapshot : Counters → Snapshot
snapshot c = record {
  requests = c.requests;
  split_requests = c.split_requests;
  passthrough = c.passthrough;
  body_bytes = c.body_bytes;
  wire_bytes = c.wire_bytes;
  refs = c.refs;
  refs_hit = c.refs_hit;
  blocks_pushed = c.blocks_pushed;
  repairs = c.repairs;
  rebuilds = c.rebuilds;
  rebuild_failures = c.rebuild_failures;
  upstream_errors = c.upstream_errors;
  link_errors = c.link_errors;
  response_bytes = c.response_bytes;
  link_ms = c.link_us / 1000;
  upstream_ms = c.upstream_us / 1000;
}

-- `fetch_add`, which wraps around.
abbrev pub fetch_add : ℕ → ℕ → ℕ
fetch_add a n = (a + n) % u64_mod

pub record Turn : Type 0 where
  pub profile : List ℕ
  pub seq : ℕ
  pub path : List ℕ
  pub status : ℕ
  pub body_bytes : ℕ
  pub wire_bytes : ℕ
  pub refs : ℕ
  pub refs_hit : ℕ
  pub pushed : ℕ
  pub repairs : ℕ
  pub link_ms : ℕ
  pub upstream_ms : ℕ
  pub split : Bool
  pub skip_reason : Option String
  pub store_blocks : ℕ

unfoldable pub saved : Turn → ℕ
saved t = t.body_bytes - t.wire_bytes

pub record TurnLog : Type 0 where
  pub turns : List Turn
  pub cap : ℕ

unfoldable pub new_log : ℕ → TurnLog
new_log cap = record { turns = []; cap = max cap 1 }

-- `drain(0..extra)` behind the guard on the length.
unfoldable pub push : Turn → TurnLog → TurnLog
push t l =
    let grown : List Turn = l.turns ++ (t ∷ []) in
    let extra : ℕ = length grown - l.cap in
    if ltb l.cap (length grown)
    then record l { turns = drop extra grown }
    else record l { turns = grown }

unfoldable pub recent : ℕ → TurnLog → List Turn
recent n l = drop (length l.turns - n) l.turns

pub record Bucket : Type 0 where
  pub key : List ℕ
  pub requests : ℕ
  pub body_bytes : ℕ
  pub wire_bytes : ℕ
  pub refs : ℕ
  pub refs_hit : ℕ
  pub pushed : ℕ
  pub repairs : ℕ
  pub split_requests : ℕ

abbrev pub empty_bucket : List ℕ → Bucket
empty_bucket key = record {
  key = key;
  requests = 0;
  body_bytes = 0;
  wire_bytes = 0;
  refs = 0;
  refs_hit = 0;
  pushed = 0;
  repairs = 0;
  split_requests = 0;
}

unfoldable pub saved_bytes : Bucket → ℕ
saved_bytes b = b.body_bytes - b.wire_bytes

-- The body of the loop of `buckets`.
unfoldable pub count_turn : Turn → Bucket → Bucket
count_turn t b = record b {
  requests = fetch_add b.requests 1;
  body_bytes = fetch_add b.body_bytes t.body_bytes;
  wire_bytes = fetch_add b.wire_bytes t.wire_bytes;
  refs = fetch_add b.refs t.refs;
  refs_hit = fetch_add b.refs_hit t.refs_hit;
  pushed = fetch_add b.pushed t.pushed;
  repairs = fetch_add b.repairs t.repairs;
  split_requests = fetch_add b.split_requests (if t.split then 1 else 0);
}

-- `entry(k).or_insert_with(..)`, then the counts.
unfoldable pub at_key : List ℕ → Turn → List Bucket → List Bucket
at_key k t [] = count_turn t (empty_bucket k) ∷ []
at_key k t (b ∷ bs) =
    let others = at_key k t bs in if bytes_eq b.key k then count_turn t b ∷ bs else b ∷ others

unfoldable pub group_turns : (Turn → List ℕ) → List Turn → List Bucket → List Bucket
group_turns key [] bs = bs
group_turns key (t ∷ ts) bs = group_turns key ts (at_key (key t) t bs)

-- The order of `sort_by`: the biggest saver first, then by key.
unfoldable pub comes_first : Bucket → Bucket → Bool
comes_first a b =
    ltb (saved_bytes b) (saved_bytes a)
    || ((saved_bytes a == saved_bytes b) && bytes_le a.key b.key)

unfoldable pub insert_bucket : Bucket → List Bucket → List Bucket
insert_bucket b [] = b ∷ []
insert_bucket b (c ∷ cs) =
    let later = c ∷ insert_bucket b cs in if comes_first b c then b ∷ c ∷ cs else later

unfoldable pub sort_buckets : List Bucket → List Bucket
sort_buckets [] = []
sort_buckets (b ∷ bs) = insert_bucket b (sort_buckets bs)

unfoldable pub buckets : (Turn → List ℕ) → List Turn → List Bucket
buckets key ts = sort_buckets (group_turns key ts [])
