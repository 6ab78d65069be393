-- ===== src/Session/Accounts.antt =====
-- What a completed request reports of the link (`local_end` of crates/muka-gateway/src/session.rs).
use muka_ai_trim.Common.{
  ℕ, ◌+◌, ◌*◌, ◌%◌, ◌≤◌, ◌≡◌, refl, ap, ◌∙◌, subst, arith, Bool, true, not, Option, none, some,
  List, [], ◌∷◌, ◌++◌, ltb, ltb→ge, Result, ok, err, Bool-cases, inl, inr, u64_mod, if-holds,
  All-append, ◌==◌, ◌&&◌,
}
use muka_ai_trim.Bloom.{Bloom, decode_bloom}
use muka_ai_trim.Codec
use muka_ai_trim.Codec.{Tag, Frame, ping, pong, need}
use muka_ai_trim.Codec.Decoding.{Error}
use muka_ai_trim.Digest.{Digest}
use muka_ai_trim.Message.{RequestHead, decode_needs}
use muka_ai_trim.Metrics.{Counters}
use muka_ai_trim.Program.{Block}
use muka_ai_trim.Session.{SessionError, max_repairs, max_instrs}
use muka_ai_trim.Session.Local.{
  Payload, split, whole, Conn, HelloAck, Fail, ResponseHead, ResponseEnd, LinkState, Wire,
  charge_all, request_frames, block_frame, end_frame,
}
use muka_ai_trim.Session.Reply.{
  Arrival, unreadable, arrived, unanswered, on_arrival, answer_cut, need_cut, digests_cut, Local,
  Reply, wrote_all, record_turn, start, on_ack, on_digests, on_need, on_fail, on_bloom,
  on_response_head, on_response_body, complete, on_response_end, on_peer_stats, reply_to, replies,
  local_end, resend,
}
use muka_ai_trim.Store.{Inner}
use muka_ai_trim.Store
use Prim.Native.String.{String}
use muka_ai_trim.Session.Charges.{
  charge_of, IsCounted, NoPong, charge_of-wrote_all, charge_of-append, block_frame-NoPong,
  request_frames-NoPong,
}

-- Where a request stands on the link: what was counted, the repair rounds, and the counter of repairs
-- that was `before` at the start.
record Stands (before spent : ℕ) (s : Local) : Type 0 where
  wire : s.wire ≡ spent % u64_mod
  rounds : s.repairs ≤ max_repairs
  counter : s.link.counters.repairs ≡ (before + s.repairs) % u64_mod

-- What a response that came to its end reports.
pub record Reports (before spent : ℕ) (s : Local) (e : ResponseEnd) : Type 0 where
  pub wire : e.wire_bytes ≡ spent % u64_mod
  pub rounds : e.repairs ≤ max_repairs
  pub counter : s.link.counters.repairs ≡ (before + 2 * e.repairs) % u64_mod

abbrev After : ℕ → ℕ → Local → Option (Result SessionError ResponseEnd) → Type 0
After before spent s none = Stands before spent s
After before spent s (some (err e)) = Unit
After before spent s (some (ok e)) = Reports before spent s e

abbrev AfterReply : ℕ → ℕ → Reply → Type 0
AfterReply before spent r = After before (spent + charge_of r.relayed) r.state r.ended

module _ (w : Wire) (head : RequestHead) (payload : Payload) (before spent : ℕ) where
  same_spent : (s : Local) → Stands before spent s → Stands before (spent + 0) s
  same_spent s h = record { wire = omega (arith, h.wire); rounds = h.rounds; counter = h.counter }

  on_ack-After :
      (s : Local) (r : Result String HelloAck)
      → Stands before spent s
      → AfterReply before spent (on_ack w head payload s r)
  unfolding on_ack charge_of
  on_ack-After s (err e) h = tt
  on_ack-After s (ok a) h = if-holds (AfterReply before spent) (not a.accepted) tt (
      if-holds (AfterReply before spent) ((a.blocks == 0) && not (a.epoch == 0))
        (record { wire = omega (arith, h.wire); rounds = h.rounds; counter = h.counter })
        (same_spent s h))

  resend-NoPong :
      (now : ℕ) (s : Local) (ds : List Digest) (g : Inner)
      → NoPong (resend w head payload now s ds g).1
  unfolding resend
  resend-NoPong now s [] g = tt
  resend-NoPong now s (d ∷ ds) g =
      at_found _ (Store.get now d g).1 (resend-NoPong now s ds (Store.get now d g).0)
    where
      at_found :
          (later : Inner × List Frame) (o : Option Block)
          → NoPong later.1
          → NoPong
              (elim o as (λ x. Inner × List Frame) [
                | none ↦ later
                | some b ↦ (later.0, block_frame w b s.conn.id s.link.compress ∷ later.1)
              ]).1
      at_found later none h = h
      at_found later (some b) h = (block_frame-NoPong w b s.conn.id s.link.compress, h)

  on_digests-After :
      (now : ℕ) (s : Local) (r : Result Error (List Digest))
      → s.wire ≡ spent % u64_mod
      → s.repairs ≤ max_repairs
      → (s.link.counters.repairs + 1) % u64_mod ≡ (before + s.repairs) % u64_mod
      → AfterReply before spent (on_digests w head payload now s r)
  unfolding on_digests
  on_digests-After now s (err e) a b c = tt
  on_digests-After now s (ok ds) a b c =
      let sent : List Frame = (resend w head payload now s ds s.link.store).1 in
      let fs : List Frame = sent ++ (end_frame w s.conn.id ∷ []) in
      let free : NoPong fs =
        All-append IsCounted sent _ (resend-NoPong now s ds s.link.store) (refl, tt) in
      record { wire = omega (arith, a, charge_of-wrote_all fs free); rounds = b; counter = c }

  on_need-After :
      (now : ℕ) (s : Local) (raw : List ℕ)
      → Stands before spent s
      → AfterReply before spent (on_need w head payload now s raw)
  unfolding on_need
  on_need-After now s raw h = elim (Bool-cases (ltb max_repairs (s.repairs + 1))) [
    | inl many ↦ rw many tt
    | inr few ↦ rw few (
        on_digests-After now (record s { repairs = s.repairs + 1 }) (decode_needs raw max_instrs)
          h.wire (ltb→ge _ _ few) (omega (arith, h.counter)))
  ]

  on_response_end-After :
      (s : Local) (r : Result String ResponseEnd)
      → Stands before spent s
      → AfterReply before spent (on_response_end w head payload s r)
  unfolding on_response_end complete charge_of record_turn
  on_response_end-After s (err e) h = tt
  on_response_end-After s (ok e) h = record {
    wire = omega (arith, h.wire);
    rounds = h.rounds;
    counter =
        counts_again s.link.counters (complete w head payload s e) payload
        ∙ omega (arith, h.counter);
  }
    where
      counts_again :
          (c : Counters) (e : ResponseEnd) (p : Payload)
          → (record_turn c e p).repairs ≡ (c.repairs + e.repairs) % u64_mod
      counts_again c e (split out) = refl
      counts_again c e (whole b) = refl

  reply_to-After :
      (now : ℕ) (listening : Bool) (s : Local) (f : Frame) (t : Tag)
      → Stands before spent s
      → AfterReply before spent (reply_to w head payload now listening s f t)
  unfolding reply_to charge_of on_bloom on_response_head on_response_body on_peer_stats on_fail
  reply_to-After now listening s f Codec.hello_ack h = on_ack-After s (w.ack_of f.payload) h
  reply_to-After now listening s f Codec.need h = on_need-After now s f.payload h
  reply_to-After now listening s f Codec.fail h = at_fail (w.fail_of f.payload)
    where
      at_fail : (r : Result String Fail) → AfterReply before spent (on_fail w head payload s r)
      at_fail (err e) = tt
      at_fail (ok x) = tt
  reply_to-After now listening s f Codec.reset h = tt
  reply_to-After now listening s f Codec.bloom h =
      at_bloom (decode_bloom f.payload) (same_spent s h)
    where
      at_bloom :
          (r : Result Error (ℕ × (ℕ × Bloom)))
          → Stands before (spent + 0) s
          → AfterReply before spent (on_bloom w head payload s r)
      at_bloom (err e) h = tt
      at_bloom (ok x) h = record { wire = h.wire; rounds = h.rounds; counter = h.counter }
  reply_to-After now listening s f Codec.response_head h =
      at_head (w.head_of f.payload) (same_spent s h)
    where
      at_head :
          (r : Result String ResponseHead)
          → Stands before (spent + 0) s
          → AfterReply before spent (on_response_head w head payload listening s r)
      at_head (err e) h = tt
      at_head (ok x) h =
          if-holds (AfterReply before spent) (not listening) tt
            (record { wire = h.wire; rounds = h.rounds; counter = h.counter })
  reply_to-After now listening s f Codec.response_body h =
      let g = same_spent s h in
      if-holds (AfterReply before spent) (not listening) tt
        (record { wire = g.wire; rounds = g.rounds; counter = g.counter })
  reply_to-After now listening s f Codec.response_end h =
      on_response_end-After s (w.end_of f.payload) h
  reply_to-After now listening s f Codec.peer_stats h =
      at_stats (w.peer_stats_of f.payload) (same_spent s h)
    where
      at_stats :
          (r : Result String (Unit {0}))
          → Stands before (spent + 0) s
          → AfterReply before spent (on_peer_stats w head payload s r)
      at_stats (err e) h = tt
      at_stats (ok x) h = h
  reply_to-After now listening s f Codec.ping h = same_spent s h
  reply_to-After now listening s f t h = same_spent s h

  on_arrival-After :
      (now : ℕ) (s : Local) (a : Arrival)
      → Stands before spent s
      → AfterReply before spent (on_arrival w head payload now s a)
  unfolding on_arrival answer_cut need_cut digests_cut
  on_arrival-After now s (unreadable e) h = tt
  on_arrival-After now s (arrived f listening) h = reply_to-After now listening s f f.tag h
  on_arrival-After now s (unanswered f n e) h = at_tag f.tag
    where
      at_digests :
          (r : Result Error (List Digest))
          → AfterReply before spent
              (digests_cut w head payload now n e (record s { repairs = s.repairs + 1 }) r)
      at_digests (err x) = tt
      at_digests (ok ds) = tt

      at_tag : (t : Tag) → AfterReply before spent (answer_cut w head payload now n e s f t)
      at_tag Codec.need =
          if-holds (AfterReply before spent) (ltb max_repairs (s.repairs + 1)) tt
            (at_digests (decode_needs f.payload max_instrs))
      at_tag Codec.ping = tt
      at_tag t = reply_to-After now true s f t h

module _ (w : Wire) (head : RequestHead) (payload : Payload) (before : ℕ) where
  replies-After :
      (now spent : ℕ) (s : Local) (fs : List Arrival)
      → Stands before spent s
      → AfterReply before spent (replies w head payload now s fs)
  unfolding replies
  replies-After now spent s [] h = tt
  replies-After now spent s (a ∷ fs) h =
      let r : Reply = on_arrival w head payload now s a in
      at_end r (replies w head payload now r.state fs) r.ended refl
        (on_arrival-After w head payload before spent now s a h)
        (replies-After now (spent + charge_of r.relayed) r.state fs)
    where
      at_end :
          (r later : Reply) (o : Option (Result SessionError ResponseEnd))
          → r.ended ≡ o
          → AfterReply before spent r
          → (Stands before (spent + charge_of r.relayed) r.state
              → AfterReply before (spent + charge_of r.relayed) later)
          → AfterReply before spent
              (elim o [ none ↦ record later { relayed = r.relayed ++ later.relayed } | some e ↦ r ])
      at_end r later none same one more =
          let stands : Stands before (spent + charge_of r.relayed) r.state =
            subst (After before (spent + charge_of r.relayed) r.state) same one in
          let sum : spent + charge_of r.relayed + charge_of later.relayed
              ≡ spent + charge_of (r.relayed ++ later.relayed) =
            omega (arith, charge_of-append r.relayed later.relayed) in
          subst (λ (n : ℕ). After before n later.state later.ended) sum (more stands)
      at_end r later (some e) same one more = one

  -- A request that ends well reports the charges of exactly the frames that this side has written,
  -- the answers to `ping` left out, and at most four repair rounds; and it leaves the counter of
  -- repairs higher by twice the rounds, since each round is counted when it is answered and again at
  -- the end. Numbers are of 64 bits.
  pub local_end-Reports :
      (now : ℕ) (conn : Conn) (st : LinkState) (head_sent : Bool) (fs : List Arrival)
      (upload_fails : Option (ℕ × SessionError)) (e : ResponseEnd)
      → st.counters.repairs ≡ before % u64_mod
      → (local_end w head payload now conn st head_sent fs upload_fails).ended ≡ some (ok e)
      → Reports before
          (charge_of (local_end w head payload now conn st head_sent fs upload_fails).relayed)
          (local_end w head payload now conn st head_sent fs upload_fails).state
          e
  unfolding local_end start
  local_end-Reports now conn st head_sent fs (some x) e c h = cc
  local_end-Reports now conn st head_sent fs none e c h =
      let c' : Conn = record conn { requests = conn.requests + 1 } in
      let upload : List Frame = request_frames w c' head payload st in
      let s : Local = start w head payload conn st head_sent in
      let r : Reply = replies w head payload now s fs in
      let sum : charge_of (wrote_all upload ++ r.relayed)
          ≡ charge_all upload + charge_of r.relayed =
        charge_of-append (wrote_all upload) r.relayed
        ∙ ap (λ (n : ℕ). n + charge_of r.relayed)
            (charge_of-wrote_all upload (request_frames-NoPong w c' head payload st)) in
      let stands : Stands before (charge_all upload) s = record {
        wire = refl;
        rounds = omega arith;
        counter = omega (arith, c);
      } in
      rw sum (rw h at (replies-After now (charge_all upload) s fs stands))
