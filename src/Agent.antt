-- ===== src/Agent.antt =====
-- crates/muka-gateway/src/local.rs: how the agent's end sends a request, and what it records. The pool
-- holds connections; dialling and what the reads of a connection give are arguments.
pub mod Quiet
pub mod Attempts
use muka_ai_trim.Common.{
  ℕ, zero, suc, ◌+◌, ◌-◌, ◌/◌, ◌%◌, max, Bool, true, false, not, ◌&&◌, ◌||◌, Option, none, some,
  List, [], ◌∷◌, ◌++◌, ltb, leb, ◌==◌, if◌then◌else◌, length, Result, ok, err, u64_mod,
}
use muka_ai_trim.Bloom.{Bloom, empty_bloom}
use muka_ai_trim.Codec.{Frame, reset}
use muka_ai_trim.Config.{LocalConfig}
use muka_ai_trim.Digest.{Digest, codes, digest_of, raw, le_bytes, serialize}
use muka_ai_trim.Message.{Kind, RequestHead, dedupable}
use muka_ai_trim.Metrics.{Counters, fetch_add, Turn, TurnLog, push}
use muka_ai_trim.Policy.{Policy, SplitStats, reason}
use muka_ai_trim.Presence.{believes, forget}
use muka_ai_trim.Session.{SessionError, fallback_to_whole}
use muka_ai_trim.Session.Local.{Payload, whole, is_split, stats, Conn, LinkState, ResponseEnd, Wire}
use muka_ai_trim.Session.Local
use muka_ai_trim.Session.Reply.{Arrival, Relayed, Reply, local_end}
use muka_ai_trim.Splitter.{Action, split, passthrough}
use muka_ai_trim.Store
use Prim.Native.String.{String}

-- The proof is the hexadecimal text of a keyed hash.
unfoldable pub pairing_proof : (List ℕ → List ℕ) → List ℕ → ℕ → List ℕ
pairing_proof blake3 token salt =
    serialize (blake3 (codes "MUKA-PAIR-1" ++ (token ++ le_bytes 8 salt)))

pub record Prepared : Type 0 where
  pub payload : Payload
  pub skip_reason : Option String

-- `splits` is `split_body` of the body, with the presence and the store of the link.
unfoldable pub prepare : LocalConfig → Bool → Kind → Policy → (List ℕ → Action) → List ℕ → Prepared
prepare profile shadow kind policy splits body =
    if not (dedupable kind)
    then record { payload = whole body; skip_reason = some "path" }
    else if not policy.enabled
    then record { payload = whole body; skip_reason = some "disabled" }
    else if ltb (length body) (max policy.min_body_bytes profile.min_body_bytes)
    then record { payload = whole body; skip_reason = some "too_small" }
    else elim (splits body) [
      | split out ↦
          if profile.shadow || shadow
          then record { payload = whole body; skip_reason = some "shadow" }
          else record { payload = Local.split out; skip_reason = none }
      | passthrough s ↦ record { payload = whole body; skip_reason = some (reason s) }
    ]

-- The pool's newest connection first.
unfoldable pub put_conn : LocalConfig → Conn → List Conn → List Conn
put_conn profile c pool =
    if ltb 512 c.requests
    then pool
    else if ltb (length pool) profile.max_conns
    then c ∷ pool
    else pool

-- `take_conn`: the pool's newest, or what dialling gives.
unfoldable pub take_conn :
    Result SessionError Conn → List Conn → Result SessionError Conn × List Conn
take_conn dialled [] = (dialled, [])
take_conn dialled (c ∷ pool) = (ok c, pool)

-- The peers' views that `reset_cache` clears: the digests sent and the filter.
unfoldable pub clear_views : List (List Digest × Bloom) → List (List Digest × Bloom)
clear_views [] = []
clear_views ((sent, b) ∷ vs) = ([], forget b) ∷ clear_views vs

-- What the pool's connections are told, and which of them took it: `alive` tells of each.
unfoldable pub tell_reset : (Conn → Bool) → List Conn → List Conn × List Frame
tell_reset alive [] = ([], [])
tell_reset alive (c ∷ cs) =
    let (kept, fs) = tell_reset alive cs in
    if alive c
    then (c ∷ kept, record { tag = reset; stream = 0; payload = [] } ∷ fs)
    else (kept, fs)

pub record Reset : Type 0 where
  pub views : List (List Digest × Bloom)
  pub pool : List Conn
  pub told : List Frame
  pub store : Store.Inner
  pub dropped : ℕ

unfoldable pub reset_cache :
    Bool → (Conn → Bool) → List (List Digest × Bloom) → List Conn → Store.Inner → Reset
reset_cache drop_store alive views pool store =
    if drop_store
    then record {
      views = clear_views views;
      pool = (tell_reset alive pool).0;
      told = (tell_reset alive pool).1;
      store = (Store.clear store).0;
      dropped = (Store.clear store).1;
    }
    else record { views = clear_views views; pool = pool; told = []; store = store; dropped = 0 }

-- What the environment gives an attempt: the dialled connection, and what its reads and writes meet.
pub record Attempt : Type 0 where
  pub dialled : Result SessionError Conn
  pub arrivals : List Arrival
  pub upload_fails : Option (ℕ × SessionError)

pub record Agent : Type 0 where
  pub link : LinkState
  pub pool : List Conn
  pub head_sent : Bool

pub record Driven : Type 0 where
  pub agent : Agent
  pub payload : Payload
  pub skip_reason : Option String
  -- The payload of each attempt and what the attempt relayed.
  pub attempts : List (Payload × List Relayed)
  -- The outcome, or none if the fuel ran out.
  pub outcome : Option (Result SessionError ResponseEnd)

abbrev pub count_link_error : LinkState → LinkState
count_link_error st = record st {
  counters = record st.counters { link_errors = fetch_add st.counters.link_errors 1 };
}

abbrev pub count_failure : LinkState → LinkState
count_failure st = record st {
  counters = record st.counters { rebuild_failures = fetch_add st.counters.rebuild_failures 1 };
}

module _ (w : Wire) (profile : LocalConfig) (head : RequestHead) (body : List ℕ) (now : ℕ) where
  -- May the request be sent again, whole?
  unfoldable pub retryable : SessionError → ℕ → Payload → Bool → Bool
  retryable e attempts payload head_sent =
      fallback_to_whole e && ((attempts == 1) && (is_split payload && not head_sent))

  abbrev pub behind : Agent → List Conn → Reply → Agent
  behind a pool r = record { link = r.state.link; pool = pool; head_sent = r.state.head_sent }

  abbrev pub attempted : Payload → Reply → Driven → Driven
  attempted payload r d = record d { attempts = (payload, r.relayed) ∷ d.attempts }

  -- Behind an attempt: `again` sends the body whole.
  unfoldable pub after_outcome :
      ℕ
      → Agent
      → Payload
      → Option String
      → List Conn
      → Reply
      → (Agent → Driven)
      → Option (Result SessionError ResponseEnd)
      → Driven
  after_outcome n a payload skip pool r again none = record {
    agent = behind a pool r;
    payload = payload;
    skip_reason = skip;
    attempts = [];
    outcome = none;
  }
  after_outcome n a payload skip pool r again (some (ok end)) = record {
    agent = behind a (put_conn profile r.state.conn pool) r;
    payload = payload;
    skip_reason = skip;
    attempts = [];
    outcome = some (ok end);
  }
  after_outcome n a payload skip pool r again (some (err e)) =
      if not (retryable e n payload r.state.head_sent)
      then record {
        agent = record (behind a pool r) { link = count_link_error r.state.link };
        payload = payload;
        skip_reason = skip;
        attempts = [];
        outcome = some (err e);
      }
      else again (record (behind a pool r) { link = count_failure r.state.link })

  -- One attempt, on the connection that `take_conn` gave.
  unfoldable pub on_taken :
      ℕ
      → Agent
      → Payload
      → Option String
      → List Conn
      → Attempt
      → (Agent → Driven)
      → Result SessionError Conn
      → Driven
  on_taken n a payload skip pool met again (err e) = record {
    agent = record a { link = count_link_error a.link; pool = pool };
    payload = payload;
    skip_reason = skip;
    attempts = [];
    outcome = some (err e);
  }
  on_taken n a payload skip pool met again (ok conn) =
      let r : Reply =
        local_end w head payload now conn a.link a.head_sent met.arrivals met.upload_fails in
      attempted payload r (after_outcome n a payload skip pool r again r.ended)

  -- The loop of `drive`: the attempt's number, and the environment of each attempt.
  unfoldable pub drive_loop : ℕ → ℕ → (ℕ → Attempt) → Agent → Payload → Option String → Driven
  drive_loop zero n env a payload skip = record {
    agent = a;
    payload = payload;
    skip_reason = skip;
    attempts = [];
    outcome = none;
  }
  drive_loop (suc fuel) n env a payload skip =
      on_taken n a payload skip (take_conn (env n).dialled a.pool).1 (env n)
        (λ b. drive_loop fuel (n + 1) env b (whole body) (some "rebuild failed"))
        (take_conn (env n).dialled a.pool).0

  -- At most two attempts.
  unfoldable pub attempts_of : (ℕ → Attempt) → Agent → Payload → Option String → Driven
  attempts_of env a payload skip = drive_loop 2 1 env a payload skip

  -- The number of a statistic, where the payload that was sent has any.
  abbrev pub stat : (SplitStats → ℕ) → Payload → ℕ
  stat f payload = elim (stats payload) [ none ↦ 0 | some s ↦ f s ]

  -- What is recorded of a request that ended well. `elapsed_us` is the time that it took.
  unfoldable pub turn_of : ℕ → ℕ → Driven → ResponseEnd → Turn
  turn_of seq elapsed_us d end = record {
    profile = profile.name;
    seq = seq;
    path = head.path;
    status = 200;
    body_bytes = head.body_len;
    wire_bytes = end.wire_bytes;
    refs = stat (λ s. s.refs) d.payload;
    refs_hit = stat (λ s. s.refs_hit) d.payload;
    pushed = stat (λ s. s.push_blocks) d.payload;
    repairs = end.repairs;
    link_ms = elapsed_us / 1000;
    upstream_ms = end.upstream_us / 1000;
    split = is_split d.payload;
    skip_reason = d.skip_reason;
    store_blocks = end.store_blocks;
  }

  abbrev pub count_link_time : ℕ → Driven → Driven
  count_link_time us d =
      let c : Counters = d.agent.link.counters in
      record d {
        agent = record d.agent {
          link = record d.agent.link { counters = record c { link_us = fetch_add c.link_us us } };
        };
      }

  unfoldable pub record_end :
      ℕ → ℕ → TurnLog → Driven → Option (Result SessionError ResponseEnd) → Driven × TurnLog
  record_end seq us log d (some (ok end)) = (count_link_time us d, push (turn_of seq us d end) log)
  record_end seq us log d (some (err e)) = (d, log)
  record_end seq us log d none = (d, log)

  unfoldable pub drive :
      ℕ → ℕ → (ℕ → Attempt) → Agent → TurnLog → Payload → Option String → Driven × TurnLog
  drive seq us env a log payload skip =
      let d : Driven = attempts_of env a payload skip in record_end seq us log d d.outcome
