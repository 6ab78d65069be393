-- ===== src/Examples/Links.antt =====
-- Both ends of a connection, the filter, the frames on the link and the agent's attempts.
use muka_ai_trim.Common.{
  ℕ, ◌≡◌, ◌++◌, refl, inl, arith, true, false, none, some, List, [], ◌∷◌, length, drop, ok, err,
}
use muka_ai_trim.Bloom.{
  Bloom, bloom, empty_bloom, new_bloom, encode_bloom, decode_bloom, next_power_of_two, power_from,
  zeros,
}
use muka_ai_trim.Bloom
use muka_ai_trim.Bloom.Members.{bloom-has}
use muka_ai_trim.Bloom.Wire.{IsSendable, decode_bloom-encode_bloom}
use muka_ai_trim.Codec.{Frame, ping, response_end, encode_frame}
use muka_ai_trim.Codec.Frames
use muka_ai_trim.Digest.{Digest, digest_of, raw}
use muka_ai_trim.Io.{read_frame, write_frame}
use muka_ai_trim.Io.Link.{read_frame-write_frame}
use muka_ai_trim.Message.{RequestHead, chat_completions}
use muka_ai_trim.Examples.Packed.{sevens, pack, codec, codec_packs}
use muka_ai_trim.Metrics.{Counters}
use muka_ai_trim.Program.{bytes}
use muka_ai_trim.Session.{Hello, acked, forwarded, remote_end, proves}
use muka_ai_trim.Session.Accounts.{Reports, local_end-Reports}
use muka_ai_trim.Session.Charges.{charge_of}
use muka_ai_trim.Session.Local.{hello_of, whole, Conn, LinkState, ResponseEnd, Wire, request_frames}
use muka_ai_trim.Session.Reply.{
  Arrival, arrived, Reply, local_end, replies, reply_to, on_arrival, on_response_end, complete,
  start,
}
use muka_ai_trim.Session.Steps.{IsWired, IsTrusted, waiting}
use muka_ai_trim.Session.Served.{remote_end-request_frames}
use muka_ai_trim.Store
use muka_ai_trim.Store.{Inner, default_config, empty_inner}
use muka_ai_trim.Varint.{Reader, advance}

-- A hash that gives back what it was fed, less the domain, the kind and the length.
abbrev hash : List ℕ → List ℕ
hash = drop 21

abbrev body : List ℕ
body = 104 ∷ 101 ∷ 106 ∷ []

abbrev head : RequestHead
head = record {
  method = "POST";
  path = [];
  headers = [];
  body_len = 3;
  body_digest = digest_of hash raw body;
  kind = chat_completions;
  split = false;
}

abbrev zero_counters : Counters
zero_counters = record {
  requests = 0;
  split_requests = 0;
  passthrough = 0;
  body_bytes = 0;
  wire_bytes = 0;
  refs = 0;
  refs_hit = 0;
  blocks_pushed = 0;
  repairs = 0;
  rebuilds = 0;
  rebuild_failures = 0;
  upstream_errors = 0;
  link_errors = 0;
  response_bytes = 0;
  link_us = 0;
  upstream_us = 0;
  io_errors = 0;
}

abbrev pub link : LinkState
link = record {
  store = empty_inner;
  presence = [];
  bloom = empty_bloom;
  counters = zero_counters;
  peer_name = [];
  compress = false;
  proof = [];
}

abbrev at_end : ResponseEnd
at_end = record {
  wire_bytes = 0;
  body_bytes = 3;
  upstream_us = 7;
  stats = none;
  repairs = 0;
  store_blocks = 0;
  store_bytes = 0;
}

abbrev pub conn : Conn
conn = record { id = 1; requests = 0; sent = 0 }

abbrev greeting_of_link : Hello
greeting_of_link = hello_of link

abbrev pub wire : Wire
wire = record {
  bulk_compress = pack;
  hello_json = λ h. [];
  head_json = λ h. [];
  ack_of = λ p. err "no ack";
  fail_of = λ p. err "no fail";
  head_of = λ p. err "no head";
  end_of = λ p. ok at_end;
  peer_stats_of = λ p. ok tt;
}

-- The first request of a connection.
abbrev pub first : Conn
first = record { id = 1; requests = 1; sent = 0 }

-- A body that is sent whole and packed.
abbrev packed_head : RequestHead
packed_head = record head { body_len = 600; body_digest = digest_of hash raw (sevens 600) }

abbrev packing_link : LinkState
packing_link = record link { compress = true }

wired :
    IsWired default_config hash codec
      (λ p. ok greeting_of_link)
      (λ p. ok packed_head)
      none
      wire
      5
      greeting_of_link
      packed_head
wired = record { packing = codec_packs; reads_hello = refl; reads_head = refl }

trusted :
    IsTrusted default_config hash codec
      (λ p. ok greeting_of_link)
      (λ p. ok packed_head)
      none
      wire
      5
      first
      packing_link
      false
unfolding IsTrusted proves
trusted = inl (refl, refl)

remote_end-request_frames_example :
    remote_end default_config hash codec
      (λ p. ok greeting_of_link)
      (λ p. ok packed_head)
      none
      5
      (waiting empty_inner none [] 0 false)
      (request_frames wire first packed_head (whole (sevens 600)) packing_link)
    ≡ acked true ∷ forwarded packed_head (sevens 600) ∷ []
remote_end-request_frames_example =
    remote_end-request_frames default_config hash codec (λ p. ok greeting_of_link)
      (λ p. ok packed_head) none wire 5 first packed_head (sevens 600) packing_link empty_inner none
      [] 0 false wired trusted refl refl (omega arith)

-- The peer answers with a ping and the end of the response.
abbrev pub answers : List Arrival
answers =
    arrived (record { tag = ping; stream = 0; payload = [] }) true
    ∷ arrived (record { tag = response_end; stream = 1; payload = [] }) true
    ∷ []

abbrev turn : Reply
turn = local_end wire head (whole body) 5 conn link false answers none

abbrev ended : ResponseEnd
ended = record at_end { wire_bytes = turn.state.wire }

turn_ends : turn.ended ≡ some (ok ended)
unfolding local_end on_arrival replies reply_to on_response_end complete start
turn_ends = refl

local_end-Reports_example : Reports 0 (charge_of turn.relayed) turn.state ended
local_end-Reports_example =
    local_end-Reports wire head (whole body) 0 5 conn link false answers none ended refl turn_ends

abbrev filter : Bloom
filter = record { m_bits = 128; k = 3; words = 5 ∷ 9 ∷ [] }

filter-IsSendable : IsSendable filter
filter-IsSendable = record {
  is_bloom = record { some_bits = omega arith; in_words = refl };
  fits = omega arith;
  some_hashes = omega arith;
  k_u64 = omega arith;
  words_u64 = (omega arith, (omega arith, tt));
}

decode_bloom-encode_bloom_example : decode_bloom (encode_bloom 7 300 filter) ≡ ok (7, (300, filter))
decode_bloom-encode_bloom_example =
    decode_bloom-encode_bloom 7 300 filter (omega arith) (omega arith) filter-IsSendable

abbrev stored : Inner
stored = record empty_inner {
  map = (body, record { len = 3; kind = raw; seq = 1; at = 5; body = bytes body }) ∷ [];
}

bloom-has_example :
    (b : Bloom) × (bloom hash stored ≡ some b)
    × ((d : Digest) → Store.has stored d ≡ true → Bloom.has hash b d ≡ some true)
bloom-has_example = bloom-has hash stored

abbrev ping_frame : Frame
ping_frame = record { tag = ping; stream = 3; payload = 1 ∷ 2 ∷ [] }

ping-IsSendable : Frames.IsSendable ping_frame
ping-IsSendable = record { stream_u64 = omega arith; fits = omega arith }

abbrev at_ping : Reader
at_ping = record { buf = encode_frame ping_frame ++ (9 ∷ []); pos = 0 }

read_frame-write_frame_example :
    (write_frame ping_frame ≡ some (encode_frame ping_frame))
    × (read_frame at_ping
        ≡ ok (some ping_frame, advance at_ping (length (encode_frame ping_frame))))
read_frame-write_frame_example =
    read_frame-write_frame ping_frame at_ping (9 ∷ []) (omega arith) ping-IsSendable refl
