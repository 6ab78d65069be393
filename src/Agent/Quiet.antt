-- ===== src/Agent/Quiet.antt =====
-- That `local_end` of crates/muka-gateway/src/session.rs ends, and what it relays before the response
-- head has gone to the agent.
use muka_ai_trim.Common.{
  ℕ, ◌+◌, ◌≡◌, ◌≢◌, refl, Bool, true, false, not, ◌&&◌, Option, none, some, List, [], ◌∷◌, ◌++◌,
  ltb, ◌==◌, Result, ok, err, All, All-append, if-holds, if◌then◌else◌,
}
use muka_ai_trim.Bloom.{Bloom, decode_bloom}
use muka_ai_trim.Codec
use muka_ai_trim.Codec.{Frame, Tag}
use muka_ai_trim.Codec.Decoding.{Error}
use muka_ai_trim.Digest.{Digest}
use muka_ai_trim.Message.{RequestHead, decode_needs}
use muka_ai_trim.Session.{SessionError, max_instrs, max_repairs}
use muka_ai_trim.Session.Local.{
  Payload, Conn, LinkState, ResponseEnd, ResponseHead, HelloAck, Fail, Wire,
}
use muka_ai_trim.Session.Reply.{
  Arrival, unreadable, arrived, unanswered, on_arrival, answer_cut, need_cut, digests_cut, Local,
  Relayed, wrote, head_out, body_out, Reply, wrote_all, start, on_ack, on_digests, on_need, on_fail,
  on_bloom, on_response_head, on_response_body, on_response_end, on_peer_stats, reply_to, replies,
  local_end,
}
use Prim.Native.String.{String}

-- No response head for the agent.
abbrev pub IsSilent : Relayed → Type 0
IsSilent (wrote f) = Unit
IsSilent (head_out h) = ⊥
IsSilent (body_out b) = Unit

-- Until the head is marked as sent, the agent has got none.
abbrev Silent : Reply → Type 0
Silent r = r.state.head_sent ≡ false → All IsSilent r.relayed

wrote_all-IsSilent : (fs : List Frame) → All IsSilent (wrote_all fs)
unfolding wrote_all
wrote_all-IsSilent [] = tt
wrote_all-IsSilent (f ∷ fs) = (tt, wrote_all-IsSilent fs)

-- A mark is never taken back.
record IsQuiet (s : Local) (r : Reply) : Type 0 where
  silent : r.state.head_sent ≡ false → All IsSilent r.relayed
  kept : r.state.head_sent ≡ false → s.head_sent ≡ false

abbrev IsAnswered : Local → Reply → Type 0
IsAnswered s r = IsQuiet s r × (r.ended ≢ none)

module _ (w : Wire) (head : RequestHead) (payload : Payload) where
  on_digests-IsQuiet :
      (now : ℕ) (s : Local) (r : Result Error (List Digest))
      → IsQuiet s (on_digests w head payload now s r)
  unfolding on_digests
  on_digests-IsQuiet now s (err e) = record { silent = λ h. tt; kept = λ h. h }
  on_digests-IsQuiet now s (ok ds) = record { silent = λ h. wrote_all-IsSilent _; kept = λ h. h }

  reply_to-IsQuiet :
      (now : ℕ) (listening : Bool) (s : Local) (f : Frame) (t : Tag)
      → IsQuiet s (reply_to w head payload now listening s f t)
  unfolding reply_to on_ack on_need on_fail on_bloom on_response_head on_response_body
      on_response_end on_peer_stats
  reply_to-IsQuiet now listening s f Codec.hello_ack = at_ack (w.ack_of f.payload)
    where
      at_ack : (r : Result String HelloAck) → IsQuiet s (on_ack w head payload s r)
      at_ack (err e) = record { silent = λ h. tt; kept = λ h. h }
      at_ack (ok a) =
          if-holds (IsQuiet s) (not a.accepted) (record { silent = λ h. tt; kept = λ h. h })
            (if-holds (IsQuiet s) ((a.blocks == 0) && not (a.epoch == 0))
              (record { silent = λ h. tt; kept = λ h. h })
              (record { silent = λ h. tt; kept = λ h. h }))
  reply_to-IsQuiet now listening s f Codec.need =
      let q =
        on_digests-IsQuiet now (record s { repairs = s.repairs + 1 })
          (decode_needs f.payload max_instrs) in
      if-holds (IsQuiet s) (ltb max_repairs (s.repairs + 1))
        (record { silent = λ h. tt; kept = λ h. h }) (record { silent = q.silent; kept = q.kept })
  reply_to-IsQuiet now listening s f Codec.fail = at_fail (w.fail_of f.payload)
    where
      at_fail : (r : Result String Fail) → IsQuiet s (on_fail w head payload s r)
      at_fail (err e) = record { silent = λ h. tt; kept = λ h. h }
      at_fail (ok x) = record { silent = λ h. tt; kept = unmarked x.clear_presence }
        where
          unmarked :
              (b : Bool)
              → (if b then record s { link = record s.link { presence = [] } } else s).head_sent
                ≡ false
              → s.head_sent ≡ false
          unmarked true h = h
          unmarked false h = h
  reply_to-IsQuiet now listening s f Codec.reset = record { silent = λ h. tt; kept = λ h. h }
  reply_to-IsQuiet now listening s f Codec.bloom = at_bloom (decode_bloom f.payload)
    where
      at_bloom : (r : Result Error (ℕ × (ℕ × Bloom))) → IsQuiet s (on_bloom w head payload s r)
      at_bloom (err e) = record { silent = λ h. tt; kept = λ h. h }
      at_bloom (ok x) = record { silent = λ h. tt; kept = λ h. h }
  reply_to-IsQuiet now listening s f Codec.response_head = at_head (w.head_of f.payload)
    where
      at_head :
          (r : Result String ResponseHead)
          → IsQuiet s (on_response_head w head payload listening s r)
      at_head (err e) = record { silent = λ h. tt; kept = λ h. h }
      at_head (ok x) =
          if-holds (IsQuiet s) (not listening) (record { silent = λ h. tt; kept = λ h. h })
            (record { silent = λ h. cc; kept = λ h. cc })
  reply_to-IsQuiet now listening s f Codec.response_body =
      if-holds (IsQuiet s) (not listening) (record { silent = λ h. tt; kept = λ h. h })
        (record { silent = λ h. (tt, tt); kept = λ h. h })
  reply_to-IsQuiet now listening s f Codec.response_end = at_response_end (w.end_of f.payload)
    where
      at_response_end :
          (r : Result String ResponseEnd) → IsQuiet s (on_response_end w head payload s r)
      at_response_end (err e) = record { silent = λ h. tt; kept = λ h. h }
      at_response_end (ok x) = record { silent = λ h. tt; kept = λ h. h }
  reply_to-IsQuiet now listening s f Codec.peer_stats = at_stats (w.peer_stats_of f.payload)
    where
      at_stats : (r : Result String (Unit {0})) → IsQuiet s (on_peer_stats w head payload s r)
      at_stats (err e) = record { silent = λ h. tt; kept = λ h. h }
      at_stats (ok x) = record { silent = λ h. tt; kept = λ h. h }
  reply_to-IsQuiet now listening s f Codec.ping = record { silent = λ h. (tt, tt); kept = λ h. h }
  reply_to-IsQuiet now listening s f t = record { silent = λ h. tt; kept = λ h. h }

  on_arrival-IsQuiet :
      (now : ℕ) (s : Local) (a : Arrival) → IsQuiet s (on_arrival w head payload now s a)
  unfolding on_arrival answer_cut need_cut digests_cut
  on_arrival-IsQuiet now s (unreadable e) = record { silent = λ h. tt; kept = λ h. h }
  on_arrival-IsQuiet now s (arrived f listening) = reply_to-IsQuiet now listening s f f.tag
  on_arrival-IsQuiet now s (unanswered f n e) = at_tag f.tag
    where
      at_digests :
          (r : Result Error (List Digest))
          → IsQuiet s (digests_cut w head payload now n e (record s { repairs = s.repairs + 1 }) r)
      at_digests (err x) = record { silent = λ h. tt; kept = λ h. h }
      at_digests (ok ds) = record { silent = λ h. wrote_all-IsSilent _; kept = λ h. h }

      at_tag : (t : Tag) → IsQuiet s (answer_cut w head payload now n e s f t)
      at_tag Codec.need =
          if-holds (IsQuiet s) (ltb max_repairs (s.repairs + 1))
            (record { silent = λ h. tt; kept = λ h. h })
            (at_digests (decode_needs f.payload max_instrs))
      at_tag Codec.ping = record { silent = λ h. tt; kept = λ h. h }
      at_tag t = reply_to-IsQuiet now true s f t

  -- The replies end with a result, and while the head is not marked as sent, none was relayed.
  replies-quiet :
      (now : ℕ) (s : Local) (fs : List Arrival) → IsAnswered s (replies w head payload now s fs)
  unfolding replies
  replies-quiet now s [] = (record { silent = λ h. tt; kept = λ h. h }, λ e. cc)
  replies-quiet now s (a ∷ fs) =
      let r : Reply = on_arrival w head payload now s a in
      at_ended r (replies w head payload now r.state fs) r.ended refl (on_arrival-IsQuiet now s a)
        (replies-quiet now r.state fs)
    where
      ended_some :
          (r : Reply) (e : Result SessionError ResponseEnd) → r.ended ≡ some e → r.ended ≡ none → ⊥
      ended_some r e a b = cc

      at_ended :
          (r later : Reply) (o : Option (Result SessionError ResponseEnd))
          → r.ended ≡ o
          → IsQuiet s r
          → IsAnswered r.state later
          → IsAnswered s
              (elim o [ none ↦ record later { relayed = r.relayed ++ later.relayed } | some e ↦ r ])
      at_ended r later none same q (l, total) = (
        record {
          silent = λ h. All-append IsSilent r.relayed _ (q.silent (l.kept h)) (l.silent h);
          kept = λ h. q.kept (l.kept h);
        },
        total,
      )
      at_ended r later (some e) same q l = (q, λ n. ended_some r e same n)

  pub local_end-quiet :
      (now : ℕ) (conn : Conn) (st : LinkState) (sent : Bool) (fs : List Arrival)
      (upload_fails : Option (ℕ × SessionError))
      → ((local_end w head payload now conn st sent fs upload_fails).state.head_sent ≡ false
          → All IsSilent (local_end w head payload now conn st sent fs upload_fails).relayed)
        × ((local_end w head payload now conn st sent fs upload_fails).ended ≢ none)
  unfolding local_end
  local_end-quiet now conn st sent fs (some x) = (λ h. wrote_all-IsSilent _, λ e. cc)
  local_end-quiet now conn st sent fs none =
      let (q, total) = replies-quiet now (start w head payload conn st sent) fs in
      (λ h. All-append IsSilent _ _ (wrote_all-IsSilent _) (q.silent h), total)
