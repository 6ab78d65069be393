-- ===== src/Session/Steps.antt =====
-- Steps of a connection that go on, one behind the other: the greeting, the head and the end of a
-- request (`remote_end` and `local_end` of crates/muka-gateway/src/session.rs).
use muka_ai_trim.Common.{
  ℕ, ◌+◌, ◌%◌, ◌≡◌, ◌⊎◌, refl, ap, ◌∙◌, Bool, true, false, not, ◌&&◌, Option, none, some, List, [],
  ◌∷◌, ◌++◌, ◌==◌, Result, ok, inl, inr, u64_mod, if◌then◌else◌, ==_iff,
}
use muka_ai_trim.Codec.{Frame, hello}
use muka_ai_trim.Message.{RequestHead, protocol_version}
use muka_ai_trim.Program.{Instr}
use muka_ai_trim.Session.{
  Hello, Remote, serving, Effect, acked, forwarded, Outcome, RebuildError, frame_charge, proves,
  needs_proof, on_hello, on_request_head, rebuild, rebuild_reads, after_rebuild, on_end_of_body,
  serve_frame, in_phase, remote_step, remote_end,
}
use muka_ai_trim.Session.Local.{
  Payload, is_split, Conn, LinkState, Wire, hello_of, hello_frames, head_frame, end_frame,
  payload_frames, request_frames,
}
use muka_ai_trim.Store.{Config, Inner, read_all}
use muka_ai_trim.Compress.{Unzstd, IsPacking}
use Prim.Native.String.{String}

-- A peer that is reading a request.
abbrev pub reading : Inner → RequestHead → List Instr → List ℕ → ℕ → Bool → Remote
reading store h instrs literal wire_in greeted = record {
  store = store;
  head = some h;
  instrs = instrs;
  literal = literal;
  wire_in = wire_in;
  greeted = greeted;
  phase = serving;
}

-- A peer that waits for the next request.
abbrev pub waiting : Inner → Option RequestHead → List Instr → ℕ → Bool → Remote
waiting store hd instrs wire_in greeted = record {
  store = store;
  head = hd;
  instrs = instrs;
  literal = [];
  wire_in = wire_in;
  greeted = greeted;
  phase = serving;
}

module _ (cfg : Config) (blake3 : List ℕ → List ℕ) {D : Type 0} (unzstd : Unzstd D)
    (json_hello : List ℕ → Result String Hello) (json_head : List ℕ → Result String RequestHead)
    (proof : Option (List ℕ)) (w : Wire) (now : ℕ) where
  -- Each end reads what the other writes: what zstd packs, and this greeting and head.
  pub record IsWired (greeting : Hello) (head : RequestHead) : Type 0 where
    pub packing : IsPacking w.bulk_compress unzstd
    pub reads_hello : json_hello (w.hello_json greeting) ≡ ok greeting
    pub reads_head : json_head (w.head_json head) ≡ ok head

  abbrev pub serves : Remote → List Frame → List Effect
  serves = remote_end cfg blake3 unzstd json_hello json_head proof now

  -- A step that does not end the connection.
  pub serves_step :
      (s s' : Remote) (f : Frame) (fs : List Frame) (es : List Effect)
      → remote_step cfg blake3 unzstd json_hello json_head proof now s f
        ≡ record { state = s'; effects = es; ended = none }
      → serves s (f ∷ fs) ≡ es ++ serves s' fs
  unfolding remote_end
  serves_step s s' f fs es h =
      ap
        (λ (o : Outcome). elim o.ended [
          | none ↦ o.effects ++ serves o.state fs
          | some e ↦ o.effects
        ])
        h

  -- The end of a request that can be rebuilt.
  pub serves_end :
      (store : Inner) (h : RequestHead) (instrs : List Instr) (literal body : List ℕ)
      (wire_in stream : ℕ) (greeted : Bool)
      → rebuild blake3 store h instrs literal ≡ ok body
      → serves (reading store h instrs literal wire_in greeted) (end_frame w stream ∷ [])
        ≡ forwarded h body ∷ []
  unfolding remote_end remote_step in_phase serve_frame on_end_of_body after_rebuild
  serves_end store h instrs literal body wire_in stream greeted rebuilt =
      let n : ℕ = (wire_in + frame_charge (end_frame w stream)) % u64_mod in
      let read : Inner = read_all now (rebuild_reads store h instrs) store in
      ap
        (λ (r : Result RebuildError (List ℕ)). last_effects (
          after_rebuild cfg blake3 unzstd json_hello json_head proof
            (reading read h instrs literal n greeted) h stream 0 r))
        rebuilt
    where
      last_effects : Outcome → List Effect
      last_effects o = elim o.ended [ none ↦ o.effects ++ serves o.state [] | some e ↦ o.effects ]

  pub head_step :
      (store : Inner) (hd : Option RequestHead) (instrs : List Instr) (h : RequestHead)
      (wire_in stream : ℕ) (greeted : Bool)
      → json_head (w.head_json h) ≡ ok h
      → (not greeted && needs_proof cfg blake3 unzstd json_hello json_head proof) ≡ false
      → remote_step cfg blake3 unzstd json_hello json_head proof now
          (waiting store hd instrs wire_in greeted)
          (head_frame w stream h)
        ≡ record {
          state =
              reading store h instrs []
                ((wire_in + frame_charge (head_frame w stream h)) % u64_mod)
                greeted;
          effects = [];
          ended = none;
        }
  unfolding remote_step in_phase serve_frame on_request_head
  head_step store hd instrs h wire_in stream greeted wired trusted = rw (trusted, wired) refl

  hello_step :
      (store : Inner) (hd : Option RequestHead) (instrs : List Instr) (h : Hello) (wire_in : ℕ)
      (greeted : Bool)
      → json_hello (w.hello_json h) ≡ ok h
      → h.version ≡ protocol_version
      → proves cfg blake3 unzstd json_hello json_head proof h ≡ true
      → remote_step cfg blake3 unzstd json_hello json_head proof now
          (waiting store hd instrs wire_in greeted)
          (record { tag = hello; stream = 0; payload = w.hello_json h })
        ≡ record {
          state =
              waiting store hd instrs
                ((wire_in
                    + frame_charge (record { tag = hello; stream = 0; payload = w.hello_json h }))
                  % u64_mod)
                true;
          effects = acked true ∷ [];
          ended = none;
        }
  unfolding remote_step in_phase serve_frame on_hello
  hello_step store hd instrs h wire_in greeted wired version proven =
      let same : (h.version == protocol_version) ≡ true = (==_iff _ _).1 version in
      rw (wired, same, proven) refl

  -- What the peer asks of a connection: the right proof in its first request, and to have been
  -- greeted before any other if there is a pairing proof.
  unfoldable pub IsTrusted : Conn → LinkState → Bool → Type 0
  IsTrusted conn st greeted =
      ((conn.requests == 1) ≡ true)
        × (proves cfg blake3 unzstd json_hello json_head proof (hello_of st) ≡ true)
      ⊎ ((conn.requests == 1) ≡ false)
        × ((not greeted && needs_proof cfg blake3 unzstd json_hello json_head proof) ≡ false)

  -- A request behind its greeting, if there is one.
  pub serves-request_frames :
      (conn : Conn) (head : RequestHead) (payload : Payload) (body : List ℕ) (st : LinkState)
      (store : Inner) (hd : Option RequestHead) (instrs : List Instr) (wire_in : ℕ) (greeted : Bool)
      → json_hello (w.hello_json (hello_of st)) ≡ ok (hello_of st)
      → IsTrusted conn st greeted
      → ((n : ℕ) (g : Bool)
          → (not g && needs_proof cfg blake3 unzstd json_hello json_head proof) ≡ false
          → serves (waiting store hd instrs n g) (
              head_frame w conn.id (record head { split = is_split payload })
              ∷ (payload_frames w conn.id st.compress payload ++ (end_frame w conn.id ∷ [])))
            ≡ forwarded (record head { split = is_split payload }) body ∷ [])
      → serves (waiting store hd instrs wire_in greeted) (request_frames w conn head payload st)
        ≡ (if conn.requests == 1 then acked true ∷ [] else [])
          ++ (forwarded (record head { split = is_split payload }) body ∷ [])
  unfolding request_frames hello_frames IsTrusted
  serves-request_frames conn head payload body st store hd instrs wire_in greeted reads
        (inl (first, proven)) served =
      rw first (
        serves_step _ _ _ _ (acked true ∷ [])
          (hello_step store hd instrs (hello_of st) wire_in greeted reads refl proven)
        ∙ ap (λ (es : List Effect). acked true ∷ es) (served _ true refl))
  serves-request_frames conn head payload body st store hd instrs wire_in greeted reads
        (inr (later, trusted)) served =
      rw later (served wire_in greeted trusted)
