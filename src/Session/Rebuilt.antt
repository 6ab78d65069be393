-- ===== src/Session/Rebuilt.antt =====
-- crates/muka-gateway/src/session.rs: what `rebuild` and the steps of a connection forward.
use muka_ai_trim.Common.{
  ℕ, ◌+◌, Bool, true, false, Option, none, some, List, [], ◌∷◌, ◌≡◌, refl, ◌==◌, ==_iff, length,
  bytes_eq, bytes_eq_iff, Result, ok, err, >>=-eq-ok, guard-eq-ok, ok-injective, All, All-append,
  if-holds, ltb, not, ◌&&◌, subst, sym,
}
use muka_ai_trim.Digest.{digest_of, raw}
use muka_ai_trim.Program.{Instr, Block}
use muka_ai_trim.Codec.{Tag, Frame}
use muka_ai_trim.Codec.Decoding.{Error}
use muka_ai_trim.Codec
use muka_ai_trim.Message.{RequestHead, protocol_version}
use muka_ai_trim.Store.{Config, Inner, has, read_all}
use muka_ai_trim.Session.{
  SessionError, RebuildError, missing, mismatch, Hello, Phase, serving, repairing, Remote, Effect,
  acked, needed, failed, ponged, forwarded, max_repairs, max_body_bytes, proves, needs_proof,
  Outcome, assemble, is_declared, rebuild, send_whole, on_hello, on_request_head, on_program,
  on_body, on_block, on_repair_block, after_rebuild, on_end_of_body, rebuild_reads, with_payload,
  serve_frame, repair_frame, in_phase, remote_step, remote_end, stops, plain_payload,
}
use muka_ai_trim.Compress.{Unzstd}
use Prim.Native.String.{String}

-- The body has the length and the digest that the request head declares.
unfoldable pub IsDeclared : (List ℕ → List ℕ) → RequestHead → List ℕ → Type 0
IsDeclared blake3 h body = (length body ≡ h.body_len) × (digest_of blake3 raw body ≡ h.body_digest)

-- What `rebuild` returns has the length and the digest that the head declares.
rebuild-IsDeclared :
    (blake3 : List ℕ → List ℕ) (store : Inner) (head : RequestHead) (instrs : List Instr)
    (literal body : List ℕ)
    → rebuild blake3 store head instrs literal ≡ ok body
    → IsDeclared blake3 head body
unfolding rebuild is_declared IsDeclared
rebuild-IsDeclared blake3 store head instrs literal body h =
    let (b, _, e) = >>=-eq-ok (assemble store head instrs literal) _ h in
    let (t, r) = guard-eq-ok (is_declared blake3 head b) mismatch (ok b) e in
    let (d, g) =
      declared (length b == head.body_len) (bytes_eq (digest_of blake3 raw b) head.body_digest) t in
    let same : b ≡ body = ok-injective r in
    subst IsDeclared' same ((==_iff (length b) head.body_len).0 d, (bytes_eq_iff _ _).0 g)
  where
    IsDeclared' : List ℕ → Type 0
    IsDeclared' = IsDeclared blake3 head

    declared : (x y : Bool) → (x && y) ≡ true → (x ≡ true) × (y ≡ true)
    declared true y q = (refl, q)
    declared false y q = cc

pub is_declared_lem :
    (blake3 : List ℕ → List ℕ) (h : RequestHead) (body : List ℕ)
    → h.body_len ≡ length body
    → h.body_digest ≡ digest_of blake3 raw body
    → is_declared blake3 h body ≡ true
unfolding is_declared
is_declared_lem blake3 h body len dig =
    let l : (length body == h.body_len) ≡ true = (==_iff _ _).1 (sym len) in
    let d : bytes_eq (digest_of blake3 raw body) h.body_digest ≡ true =
      (bytes_eq_iff _ _).1 (sym dig) in
    rw (l, d) refl

-- An effect that forwards a body forwards one that is as its head declares.
unfoldable pub IsVerified : (List ℕ → List ℕ) → Effect → Type 0
IsVerified blake3 (forwarded h body) = IsDeclared blake3 h body
IsVerified blake3 (acked b) = Unit
IsVerified blake3 (needed n p) = Unit
IsVerified blake3 (failed n b) = Unit
IsVerified blake3 ponged = Unit

module _ (cfg : Config) (blake3 : List ℕ → List ℕ) {D : Type 0} (unzstd : Unzstd D)
    (json_hello : List ℕ → Result String Hello) (json_head : List ℕ → Result String RequestHead)
    (proof : Option (List ℕ)) where
  abbrev Verified : Outcome → Type 0
  Verified o = All (IsVerified blake3) o.effects

  with_payload-Verified :
      (s : Remote) (r : Result SessionError (Tag × List ℕ)) (f : List ℕ → Outcome)
      → ((p : List ℕ) → Verified (f p))
      → Verified (with_payload cfg blake3 unzstd json_hello json_head proof s r f)
  with_payload-Verified s (err e) f h = tt
  with_payload-Verified s (ok p) f h = h p.1

  on_hello-Verified :
      (s : Remote) (r : Result String Hello)
      → Verified (on_hello cfg blake3 unzstd json_hello json_head proof s r)
  unfolding on_hello IsVerified
  on_hello-Verified s (err e) = tt
  on_hello-Verified s (ok h) =
      if-holds Verified (not (h.version == protocol_version)) (tt, tt)
        (if-holds Verified (proves cfg blake3 unzstd json_hello json_head proof h) (tt, tt)
          (tt, tt))

  on_request_head-Verified :
      (s : Remote) (r : Result String RequestHead)
      → Verified (on_request_head cfg blake3 unzstd json_hello json_head proof s r)
  unfolding on_request_head
  on_request_head-Verified s (ok h) =
      if-holds Verified (not s.greeted && needs_proof cfg blake3 unzstd json_hello json_head proof)
        tt tt
  on_request_head-Verified s (err e) =
      if-holds Verified (not s.greeted && needs_proof cfg blake3 unzstd json_hello json_head proof)
        tt tt

  on_body-Verified :
      (s : Remote) (p : List ℕ)
      → Verified (on_body cfg blake3 unzstd json_hello json_head proof s p)
  unfolding on_body
  on_body-Verified s p = if-holds Verified (ltb max_body_bytes (length s.literal + length p)) tt tt

  after_rebuild-Verified :
      (s : Remote) (h : RequestHead) (stream repairs : ℕ) (r : Result RebuildError (List ℕ))
      → ((body : List ℕ) → r ≡ ok body → IsDeclared blake3 h body)
      → Verified (after_rebuild cfg blake3 unzstd json_hello json_head proof s h stream repairs r)
  unfolding after_rebuild IsVerified
  after_rebuild-Verified s h stream repairs (ok body) d = (d body refl, tt)
  after_rebuild-Verified s h stream repairs (err (missing ds)) d =
      if-holds Verified (ltb max_repairs (repairs + 1)) (tt, tt) (tt, tt)
  after_rebuild-Verified s h stream repairs (err mismatch) d = (tt, tt)

  on_end_of_body-Verified :
      (now : ℕ) (s : Remote) (stream repairs : ℕ)
      → Verified (on_end_of_body cfg blake3 unzstd json_hello json_head proof now s stream repairs)
  unfolding on_end_of_body
  on_end_of_body-Verified now s stream repairs = at_head s.head
    where
      behind : RequestHead → Remote
      behind h = record s { store = read_all now (rebuild_reads s.store h s.instrs) s.store }

      end_with : Option RequestHead → Outcome
      end_with o = elim o [
        | none ↦
            stops cfg blake3 unzstd json_hello json_head proof s []
              (send_whole "head never arrived")
        | some h ↦
            after_rebuild cfg blake3 unzstd json_hello json_head proof (behind h) h stream repairs
              (rebuild blake3 s.store h s.instrs s.literal)
      ]

      at_head : (o : Option RequestHead) → Verified (end_with o)
      at_head none = tt
      at_head (some h) =
          after_rebuild-Verified (behind h) h stream repairs
            (rebuild blake3 s.store h s.instrs s.literal)
            (λ body. rebuild-IsDeclared blake3 s.store h s.instrs s.literal body)

  on_program-Verified :
      (s : Remote) (r : Result Error (List Instr))
      → Verified (on_program cfg blake3 unzstd json_hello json_head proof s r)
  unfolding on_program
  on_program-Verified s (ok is) = tt
  on_program-Verified s (err e) = tt

  on_block-Verified :
      (now : ℕ) (s : Remote) (r : Result Error Block)
      → Verified (on_block cfg blake3 unzstd json_hello json_head proof now s r)
  unfolding on_block
  on_block-Verified now s (ok b) = tt
  on_block-Verified now s (err e) = tt

  on_repair_block-Verified :
      (now : ℕ) (s : Remote) (r : Result Error Block)
      → Verified (on_repair_block cfg blake3 unzstd json_hello json_head proof now s r)
  unfolding on_repair_block
  on_repair_block-Verified now s (ok b) = if-holds Verified (has s.store b.digest) tt tt
  on_repair_block-Verified now s (err e) = tt

  serve_frame-Verified :
      (now : ℕ) (s : Remote) (f : Frame) (t : Tag)
      → Verified (serve_frame cfg blake3 unzstd json_hello json_head proof now s f t)
  unfolding serve_frame IsVerified
  serve_frame-Verified now s f Codec.hello = on_hello-Verified s (json_hello f.payload)
  serve_frame-Verified now s f Codec.request_head = on_request_head-Verified s (json_head f.payload)
  serve_frame-Verified now s f Codec.program_tag =
      with_payload-Verified s (plain_payload unzstd f) _ (λ p. on_program-Verified s _)
  serve_frame-Verified now s f Codec.program_z =
      with_payload-Verified s (plain_payload unzstd f) _ (λ p. on_program-Verified s _)
  serve_frame-Verified now s f Codec.request_body =
      with_payload-Verified s (plain_payload unzstd f) _ (on_body-Verified s)
  serve_frame-Verified now s f Codec.request_body_z =
      with_payload-Verified s (plain_payload unzstd f) _ (on_body-Verified s)
  serve_frame-Verified now s f Codec.block_bytes =
      with_payload-Verified s (plain_payload unzstd f) _ (λ p. on_block-Verified now s _)
  serve_frame-Verified now s f Codec.block_bytes_z =
      with_payload-Verified s (plain_payload unzstd f) _ (λ p. on_block-Verified now s _)
  serve_frame-Verified now s f Codec.block_program =
      with_payload-Verified s (plain_payload unzstd f) _ (λ p. on_block-Verified now s _)
  serve_frame-Verified now s f Codec.block_program_z =
      with_payload-Verified s (plain_payload unzstd f) _ (λ p. on_block-Verified now s _)
  serve_frame-Verified now s f Codec.end_of_body = on_end_of_body-Verified now s f.stream 0
  serve_frame-Verified now s f Codec.ping = (tt, tt)
  serve_frame-Verified now s f Codec.reset = tt
  serve_frame-Verified now s f Codec.hello_ack = tt
  serve_frame-Verified now s f Codec.need = tt
  serve_frame-Verified now s f Codec.bloom = tt
  serve_frame-Verified now s f Codec.response_head = tt
  serve_frame-Verified now s f Codec.response_body = tt
  serve_frame-Verified now s f Codec.response_end = tt
  serve_frame-Verified now s f Codec.peer_stats = tt
  serve_frame-Verified now s f Codec.pong = tt
  serve_frame-Verified now s f Codec.cancel = tt
  serve_frame-Verified now s f Codec.fail = tt

  repair_frame-Verified :
      (now repairs stream : ℕ) (s : Remote) (f : Frame) (t : Tag)
      → Verified
          (repair_frame cfg blake3 unzstd json_hello json_head proof now repairs stream s f t)
  unfolding repair_frame
  repair_frame-Verified now repairs stream s f Codec.block_bytes =
      with_payload-Verified s (plain_payload unzstd f) _ (λ p. on_repair_block-Verified now s _)
  repair_frame-Verified now repairs stream s f Codec.block_bytes_z =
      with_payload-Verified s (plain_payload unzstd f) _ (λ p. on_repair_block-Verified now s _)
  repair_frame-Verified now repairs stream s f Codec.block_program =
      with_payload-Verified s (plain_payload unzstd f) _ (λ p. on_repair_block-Verified now s _)
  repair_frame-Verified now repairs stream s f Codec.block_program_z =
      with_payload-Verified s (plain_payload unzstd f) _ (λ p. on_repair_block-Verified now s _)
  repair_frame-Verified now repairs stream s f Codec.end_of_body =
      on_end_of_body-Verified now s stream repairs
  repair_frame-Verified now repairs stream s f Codec.hello = tt
  repair_frame-Verified now repairs stream s f Codec.request_head = tt
  repair_frame-Verified now repairs stream s f Codec.program_tag = tt
  repair_frame-Verified now repairs stream s f Codec.program_z = tt
  repair_frame-Verified now repairs stream s f Codec.request_body = tt
  repair_frame-Verified now repairs stream s f Codec.request_body_z = tt
  repair_frame-Verified now repairs stream s f Codec.ping = tt
  repair_frame-Verified now repairs stream s f Codec.reset = tt
  repair_frame-Verified now repairs stream s f Codec.hello_ack = tt
  repair_frame-Verified now repairs stream s f Codec.need = tt
  repair_frame-Verified now repairs stream s f Codec.bloom = tt
  repair_frame-Verified now repairs stream s f Codec.response_head = tt
  repair_frame-Verified now repairs stream s f Codec.response_body = tt
  repair_frame-Verified now repairs stream s f Codec.response_end = tt
  repair_frame-Verified now repairs stream s f Codec.peer_stats = tt
  repair_frame-Verified now repairs stream s f Codec.pong = tt
  repair_frame-Verified now repairs stream s f Codec.cancel = tt
  repair_frame-Verified now repairs stream s f Codec.fail = tt

  in_phase-Verified :
      (now : ℕ) (ph : Phase) (s : Remote) (f : Frame)
      → Verified (in_phase cfg blake3 unzstd json_hello json_head proof now ph s f)
  unfolding in_phase
  in_phase-Verified now serving s f = serve_frame-Verified now s f f.tag
  in_phase-Verified now (repairing repairs stream) s f =
      repair_frame-Verified now repairs stream s f f.tag

  -- Whatever frames arrive, from whatever state, each request that the peer forwards has a body of
  -- the length and the digest that its head declares.
  pub remote_end-IsVerified :
      (now : ℕ) (s : Remote) (fs : List Frame)
      → All (IsVerified blake3) (remote_end cfg blake3 unzstd json_hello json_head proof now s fs)
  unfolding remote_end remote_step
  remote_end-IsVerified now s [] = tt
  remote_end-IsVerified now s (f ∷ fs) =
      let o : Outcome = remote_step cfg blake3 unzstd json_hello json_head proof now s f in
      let later = remote_end-IsVerified now o.state fs in
      let first : Verified o = in_phase-Verified now s.phase _ f in
      at_end o.effects _ o.ended (All-append (IsVerified blake3) _ _ first later) first
    where
      at_end :
          (es all : List Effect) (e : Option SessionError)
          → All (IsVerified blake3) all
          → All (IsVerified blake3) es
          → All (IsVerified blake3) (elim e [ none ↦ all | some x ↦ es ])
      at_end es all none h g = h
      at_end es all (some x) h g = g
