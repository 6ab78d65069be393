-- ===== src/Session/Reply.antt =====
-- `local_end` of crates/muka-gateway/src/session.rs behind the upload: one frame of the peer at a time,
-- until the response is complete or fails.
use muka_ai_trim.Common.{
  ℕ, ◌+◌, ◌-◌, ◌%◌, take, Bool, true, not, ◌&&◌, max, Option, none, some, List, [], ◌∷◌, ◌++◌, ltb,
  ◌==◌, if◌then◌else◌, length, Result, ok, err, u64_mod,
}
use muka_ai_trim.Bloom.{Bloom, decode_bloom}
use muka_ai_trim.Codec.{
  Tag, Frame, hello_ack, need, fail, reset, bloom, response_head, response_body, response_end,
  peer_stats, ping, pong,
}
use muka_ai_trim.Codec.Decoding.{Error}
use muka_ai_trim.Digest.{Digest}
use muka_ai_trim.Message.{RequestHead, decode_needs}
use muka_ai_trim.Metrics.{Counters, fetch_add}
use muka_ai_trim.Presence.{note_pushed}
use muka_ai_trim.Program.{Block}
use muka_ai_trim.Session.{
  SessionError, proto, link_closed, rejected, send_whole, bad_payload, unrebuildable, max_instrs,
  max_repairs,
}
use muka_ai_trim.Session.Local.{
  Payload, split, whole, Conn, HelloAck, Fail, ResponseHead, ResponseEnd, LinkState, Wire,
  charge_all, block_frame, end_frame, request_frames, pushed_digests,
}
use muka_ai_trim.Store
use muka_ai_trim.Store.{Inner}
use Prim.Native.String.{String}

unfoldable pub record_turn : Counters → ResponseEnd → Payload → Counters
record_turn c e payload =
    let c' : Counters = record c {
      requests = fetch_add c.requests 1;
      body_bytes = fetch_add c.body_bytes e.body_bytes;
      wire_bytes = fetch_add c.wire_bytes e.wire_bytes;
      upstream_us = fetch_add c.upstream_us e.upstream_us;
      repairs = fetch_add c.repairs e.repairs;
    } in
    elim payload [
      | split out ↦ record c' {
        split_requests = fetch_add c'.split_requests 1;
        refs = fetch_add c'.refs out.stats.refs;
        refs_hit = fetch_add c'.refs_hit out.stats.refs_hit;
        blocks_pushed = fetch_add c'.blocks_pushed out.stats.push_blocks;
      }
      | whole b ↦ record c' { passthrough = fetch_add c'.passthrough 1 }
    ]

pub record Local : Type 0 where
  pub conn : Conn
  pub link : LinkState
  pub wire : ℕ
  pub repairs : ℕ
  pub head_sent : Bool

-- What a step writes to the link or hands to the agent.
pub data Relayed : Type 0 where
  wrote : Frame → Relayed
  head_out : ResponseHead → Relayed
  body_out : List ℕ → Relayed

-- What a round of the loop meets on the link: `read_frame` fails, of I/O or of a malformed frame; it
-- gives a frame, while the agent still takes what it is sent or has gone away; or it gives a frame in
-- whose answer a write fails, behind so many that succeeded.
pub data Arrival : Type 0 where
  unreadable : SessionError → Arrival
  arrived : Frame → Bool → Arrival
  unanswered : Frame → ℕ → SessionError → Arrival

-- The state behind the step, what it relayed, and the end of the request, if it ended.
pub record Reply : Type 0 where
  pub state : Local
  pub relayed : List Relayed
  pub ended : Option (Result SessionError ResponseEnd)

abbrev pub goes_on : Local → List Relayed → Reply
goes_on s rs = record { state = s; relayed = rs; ended = none }

abbrev pub gives_up : Local → SessionError → Reply
gives_up s e = record { state = s; relayed = []; ended = some (err e) }

abbrev pub clear_presence : Local → Local
clear_presence s = record s { link = record s.link { presence = [] } }

abbrev pub count_repair : Local → Local
count_repair s = record s {
  link = record s.link {
    counters = record s.link.counters { repairs = fetch_add s.link.counters.repairs 1 };
  };
}

abbrev pub count_link_error : Local → Local
count_link_error s = record s {
  link = record s.link {
    counters = record s.link.counters { link_errors = fetch_add s.link.counters.link_errors 1 };
  };
}

unfoldable pub wrote_all : List Frame → List Relayed
wrote_all [] = []
wrote_all (f ∷ fs) = wrote f ∷ wrote_all fs

module _ (w : Wire) (head : RequestHead) (payload : Payload) where
  -- The state behind the upload.
  unfoldable pub start : Conn → LinkState → Bool → Local
  start conn st head_sent =
      let c : Conn = record conn { requests = conn.requests + 1 } in
      let wire : ℕ = charge_all (request_frames w c head payload st) % u64_mod in
      record {
        conn = record c { sent = (c.sent + wire) % u64_mod };
        link = record st { presence = note_pushed (pushed_digests w payload) st.presence };
        wire = wire;
        repairs = 0;
        head_sent = head_sent;
      }

  unfoldable pub on_ack : Local → Result String HelloAck → Reply
  on_ack s (err e) = gives_up s (bad_payload e)
  on_ack s (ok a) =
      if not a.accepted
      then gives_up s (rejected (elim a.reason [ none ↦ "no reason given" | some r ↦ r ]))
      else if (a.blocks == 0) && not (a.epoch == 0)
      then goes_on (clear_presence s) []
      else goes_on s []

  -- The blocks that the store still has, each lookup a use of it.
  unfoldable pub resend : ℕ → Local → List Digest → Inner → Inner × List Frame
  resend now s [] g = (g, [])
  resend now s (d ∷ ds) g =
      let found : Inner × Option Block = Store.get now d g in
      let later : Inner × List Frame = resend now s ds found.0 in
      elim found.1 [
        | none ↦ later
        | some b ↦ (later.0, block_frame w b s.conn.id s.link.compress ∷ later.1)
      ]

  abbrev pub answer_need : Local → Inner × List Frame → Reply
  answer_need s r =
      let fs : List Frame = r.1 ++ (end_frame w s.conn.id ∷ []) in
      goes_on
        (count_repair (record s {
          link = record s.link { store = r.0 };
          wire = (s.wire + charge_all fs) % u64_mod;
        }))
        (wrote_all fs)

  unfoldable pub on_digests : ℕ → Local → Result Error (List Digest) → Reply
  on_digests now s (err e) = gives_up s (proto e)
  on_digests now s (ok ds) = answer_need s (resend now s ds s.link.store)

  unfoldable pub on_need : ℕ → Local → List ℕ → Reply
  on_need now s raw =
      let s' : Local = record s { repairs = s.repairs + 1 } in
      if ltb max_repairs s'.repairs
      then gives_up s' (unrebuildable s.repairs)
      else on_digests now s' (decode_needs raw max_instrs)

  unfoldable pub on_fail : Local → Result String Fail → Reply
  on_fail s (err e) = gives_up s (bad_payload e)
  on_fail s (ok f) =
      gives_up (if f.clear_presence then clear_presence s else s) (send_whole f.reason)

  unfoldable pub on_bloom : Local → Result Error (ℕ × (ℕ × Bloom)) → Reply
  on_bloom s (err e) = gives_up s (proto e)
  on_bloom s (ok r) = goes_on (record s { link = record s.link { bloom = r.1.1 } }) []

  -- `listening`: the agent still takes what it is sent.
  unfoldable pub on_response_head : Bool → Local → Result String ResponseHead → Reply
  on_response_head listening s (err e) = gives_up s (bad_payload e)
  on_response_head listening s (ok h) =
      if not listening
      then gives_up s link_closed
      else goes_on (record s { head_sent = true }) (head_out h ∷ [])

  unfoldable pub on_response_body : Bool → Local → List ℕ → Reply
  on_response_body listening s chunk =
      let c : Counters = s.link.counters in
      let s' : Local = record s {
        link = record s.link {
          counters = record c { response_bytes = fetch_add c.response_bytes (length chunk) };
        };
      } in
      if not listening then gives_up s' link_closed else goes_on s' (body_out chunk ∷ [])

  unfoldable pub complete : Local → ResponseEnd → ResponseEnd
  complete s e =
      let body : ℕ = max e.body_bytes head.body_len in
      record e {
        wire_bytes = s.wire;
        body_bytes = if body == 0 then head.body_len else body;
        repairs = s.repairs;
      }

  unfoldable pub on_response_end : Local → Result String ResponseEnd → Reply
  on_response_end s (err e) = gives_up s (bad_payload e)
  on_response_end s (ok e) = record {
    state = record s {
      link = record s.link { counters = record_turn s.link.counters (complete s e) payload };
    };
    relayed = [];
    ended = some (ok (complete s e));
  }

  unfoldable pub on_peer_stats : Local → Result String (Unit {0}) → Reply
  on_peer_stats s (err e) = gives_up s (bad_payload e)
  on_peer_stats s (ok u) = goes_on s []

  unfoldable pub reply_to : ℕ → Bool → Local → Frame → Tag → Reply
  reply_to now listening s f hello_ack = on_ack s (w.ack_of f.payload)
  reply_to now listening s f need = on_need now s f.payload
  reply_to now listening s f fail = on_fail s (w.fail_of f.payload)
  reply_to now listening s f reset = gives_up (clear_presence s) (send_whole "peer reset")
  reply_to now listening s f bloom = on_bloom s (decode_bloom f.payload)
  reply_to now listening s f response_head = on_response_head listening s (w.head_of f.payload)
  reply_to now listening s f response_body = on_response_body listening s f.payload
  reply_to now listening s f response_end = on_response_end s (w.end_of f.payload)
  reply_to now listening s f peer_stats = on_peer_stats s (w.peer_stats_of f.payload)
  reply_to now listening s f ping =
      goes_on s (wrote (record { tag = pong; stream = 0; payload = [] }) ∷ [])
  reply_to now listening s f t = goes_on s []

  -- The lookups and the written blocks of an answer in which the write behind `n` others fails.
  unfoldable pub resend_cut : ℕ → ℕ → Local → List Digest → Inner → Inner × List Frame
  resend_cut now n s [] g = (g, [])
  resend_cut now n s (d ∷ ds) g =
      let found : Inner × Option Block = Store.get now d g in
      let left : ℕ = elim found.1 [ none ↦ n | some b ↦ n - 1 ] in
      let later : Inner × List Frame = resend_cut now left s ds found.0 in
      elim found.1 [
        | none ↦ later
        | some b ↦
            if n == 0
            then (found.0, [])
            else (later.0, block_frame w b s.conn.id s.link.compress ∷ later.1)
      ]

  -- The sum `wire` is dropped with the error.
  unfoldable pub digests_cut : ℕ → ℕ → SessionError → Local → Result Error (List Digest) → Reply
  digests_cut now n e s (err x) = gives_up s (proto x)
  digests_cut now n e s (ok ds) =
      let r : Inner × List Frame = resend_cut now n s ds s.link.store in
      record {
        state = record s { link = record s.link { store = r.0 } };
        relayed = wrote_all r.1;
        ended = some (err e);
      }

  unfoldable pub need_cut : ℕ → ℕ → SessionError → Local → List ℕ → Reply
  need_cut now n e s raw =
      let s' : Local = record s { repairs = s.repairs + 1 } in
      if ltb max_repairs s'.repairs
      then gives_up s' (unrebuildable s.repairs)
      else digests_cut now n e s' (decode_needs raw max_instrs)

  -- Only a `need` and a `ping` are answered.
  unfoldable pub answer_cut : ℕ → ℕ → SessionError → Local → Frame → Tag → Reply
  answer_cut now n e s f need = need_cut now n e s f.payload
  answer_cut now n e s f ping = gives_up s e
  answer_cut now n e s f t = reply_to now true s f t

  unfoldable pub on_arrival : ℕ → Local → Arrival → Reply
  on_arrival now s (unreadable e) = gives_up s e
  on_arrival now s (arrived f listening) = reply_to now listening s f f.tag
  on_arrival now s (unanswered f n e) = answer_cut now n e s f f.tag

  -- What the link gives, and behind that it is closed.
  unfoldable pub replies : ℕ → Local → List Arrival → Reply
  replies now s [] = gives_up (count_link_error s) link_closed
  replies now s (a ∷ fs) =
      let r : Reply = on_arrival now s a in
      let later : Reply = replies now r.state fs in
      elim r.ended [ none ↦ record later { relayed = r.relayed ++ later.relayed } | some e ↦ r ]

  -- A request on a connection that gives `fs`, and on which the upload is written or fails behind so
  -- many frames.
  unfoldable pub local_end :
      ℕ → Conn → LinkState → Bool → List Arrival → Option (ℕ × SessionError) → Reply
  local_end now conn st head_sent fs none =
      let c : Conn = record conn { requests = conn.requests + 1 } in
      let upload : List Frame = request_frames w c head payload st in
      let r : Reply = replies now (start conn st head_sent) fs in
      record r { relayed = wrote_all upload ++ r.relayed }
  local_end now conn st head_sent fs (some (n, e)) =
      let c : Conn = record conn { requests = conn.requests + 1 } in
      record {
        state = record { conn = c; link = st; wire = 0; repairs = 0; head_sent = head_sent };
        relayed = wrote_all (take n (request_frames w c head payload st));
        ended = some (err e);
      }
