-- ===== src/Session/Served.antt =====
-- Both ends of a connection together: what `remote_end` makes of the frames that `local_end` uploads
-- (crates/muka-gateway/src/session.rs).
use muka_ai_trim.Common.{
  ℕ, zero, suc, ◌+◌, ◌%◌, ◌≤◌, ◌≡◌, refl, sym, ap, ◌∙◌, arith, Bool, true, false, not, ◌&&◌, Option,
  none, List, [], ◌∷◌, ◌++◌, append-nil, append_assoc, length, length-append, take, drop,
  take-append-drop, length-drop, length-take, All, ltb, ge→ltb, ◌==◌, Result, ok, u64_mod,
  if◌then◌else◌,
}
use muka_ai_trim.Codec.{Frame, request_body}
use muka_ai_trim.Digest.{digest_of, raw}
use muka_ai_trim.Message.{RequestHead}
use muka_ai_trim.Program.{Instr}
use muka_ai_trim.Session.{
  Hello, Remote, acked, forwarded, max_body_bytes, upload_frame, frame_charge, needs_proof, on_body,
  rebuild, assemble, is_declared, in_phase, remote_step,
}
use muka_ai_trim.Session.Local.{
  whole, is_split, Conn, LinkState, Wire, relay_chunk, chunks_loop, chunks, hello_of, head_frame,
  end_frame, body_frames, payload_frames, request_frames,
}
use muka_ai_trim.Session.Rebuilt.{is_declared_lem}
use muka_ai_trim.Session.Upload.{of_request_body}
use muka_ai_trim.Store.{Config, Inner}
use muka_ai_trim.Compress.{Unzstd, IsPacking, max_decompressed}
use Prim.Native.String.{String}
use muka_ai_trim.Session.Steps.{
  reading, waiting, serves, serves_step, serves_end, head_step, serves-request_frames, IsWired,
  IsTrusted,
}
use muka_ai_trim.Session.Handled.{upload-handled}

unfoldable pub concat : List (List ℕ) → List ℕ
concat [] = []
concat (c ∷ cs) = c ++ concat cs

concat-chunks_loop : (fuel : ℕ) (xs : List ℕ) → length xs ≤ fuel → concat (chunks_loop fuel xs) ≡ xs
unfolding concat chunks_loop
concat-chunks_loop zero [] h = refl
concat-chunks_loop zero (x ∷ xs) h = absurd (omega arith)
concat-chunks_loop (suc fuel) [] h = refl
concat-chunks_loop (suc fuel) (x ∷ xs) h =
    ap (λ (t : List ℕ). take relay_chunk (x ∷ xs) ++ t)
      (concat-chunks_loop fuel (drop relay_chunk (x ∷ xs))
        (omega (arith, length-drop relay_chunk (x ∷ xs))))
    ∙ take-append-drop relay_chunk (x ∷ xs)

concat-chunks : (body : List ℕ) → concat (chunks body) ≡ body
unfolding chunks
concat-chunks body = concat-chunks_loop (length body) body (omega arith)

-- A piece of a body is far below the ceiling of decompression.
chunks_loop_small :
    (fuel : ℕ) (xs : List ℕ)
    → All (λ (c : List ℕ). length c ≤ max_decompressed) (chunks_loop fuel xs)
unfolding chunks_loop
chunks_loop_small zero xs = tt
chunks_loop_small (suc fuel) [] = tt
chunks_loop_small (suc fuel) (x ∷ xs) = (
  omega (arith, length-take relay_chunk (x ∷ xs)),
  chunks_loop_small fuel (drop relay_chunk (x ∷ xs)),
)

chunks_small : (body : List ℕ) → All (λ (c : List ℕ). length c ≤ max_decompressed) (chunks body)
unfolding chunks
chunks_small body = chunks_loop_small (length body) body

module _ (cfg : Config) (blake3 : List ℕ → List ℕ) {D : Type 0} (unzstd : Unzstd D)
    (json_hello : List ℕ → Result String Hello) (json_head : List ℕ → Result String RequestHead)
    (proof : Option (List ℕ)) (w : Wire) (now : ℕ) where
  assemble_whole :
      (store : Inner) (h : RequestHead) (instrs : List Instr) (body : List ℕ)
      → h.split ≡ false
      → assemble store h instrs body ≡ ok body
  unfolding assemble
  assemble_whole store h instrs body unsplit = rw unsplit refl

  rebuild_whole :
      (store : Inner) (h : RequestHead) (instrs : List Instr) (body : List ℕ)
      → h.split ≡ false
      → is_declared blake3 h body ≡ true
      → rebuild blake3 store h instrs body ≡ ok body
  unfolding rebuild
  rebuild_whole store h instrs body unsplit d =
      rw (assemble_whole store h instrs body unsplit, d) refl

  on_body_fits :
      (store : Inner) (h : RequestHead) (instrs : List Instr) (body more : List ℕ) (wire_in : ℕ)
      (greeted : Bool)
      → length (body ++ more) ≤ max_body_bytes
      → on_body cfg blake3 unzstd json_hello json_head proof
          (reading store h instrs body wire_in greeted)
          more
        ≡ record {
          state = reading store h instrs (body ++ more) wire_in greeted;
          effects = [];
          ended = none;
        }
  unfolding on_body
  on_body_fits store h instrs body more wire_in greeted fits =
      let fine : ltb max_body_bytes (length body + length more) ≡ false =
        ge→ltb _ _ (omega (arith, fits, length-append body more)) in
      rw fine refl

  -- The frame of a piece of the body, compressed or not.
  body_step :
      (store : Inner) (h : RequestHead) (instrs : List Instr) (body more : List ℕ)
      (wire_in stream : ℕ) (greeted packed : Bool)
      → IsPacking w.bulk_compress unzstd
      → length more ≤ max_decompressed
      → length (body ++ more) ≤ max_body_bytes
      → (n : ℕ) × (remote_step cfg blake3 unzstd json_hello json_head proof now
            (reading store h instrs body wire_in greeted)
            (upload_frame w.bulk_compress request_body stream more packed)
          ≡ record {
            state = reading store h instrs (body ++ more) n greeted;
            effects = [];
            ended = none;
          })
  unfolding remote_step in_phase
  body_step store h instrs body more wire_in stream greeted packed wired small fits =
      let f : Frame = upload_frame w.bulk_compress request_body stream more packed in
      let n : ℕ = (wire_in + frame_charge f) % u64_mod in
      let s : Remote = reading store h instrs body n greeted in
      (
        n,
        upload-handled cfg blake3 unzstd json_hello json_head proof w now wired request_body
              of_request_body s stream more packed small
            ∙ on_body_fits store h instrs body more n greeted fits,
      )

  serves_body :
      (cs : List (List ℕ)) (store : Inner) (h : RequestHead) (instrs : List Instr)
      (literal body : List ℕ) (wire_in stream : ℕ) (greeted packed : Bool)
      → IsPacking w.bulk_compress unzstd
      → All (λ (c : List ℕ). length c ≤ max_decompressed) cs
      → h.split ≡ false
      → is_declared blake3 h body ≡ true
      → length body ≤ max_body_bytes
      → literal ++ concat cs ≡ body
      → serves cfg blake3 unzstd json_hello json_head proof w now
          (reading store h instrs literal wire_in greeted)
          (body_frames w stream packed cs ++ (end_frame w stream ∷ []))
        ≡ forwarded h body ∷ []
  unfolding concat body_frames
  serves_body [] store h instrs literal body wire_in stream greeted packed wired small unsplit d
        fits e =
      let same : literal ≡ body = sym (append-nil literal) ∙ e in
      rw same (
        serves_end cfg blake3 unzstd json_hello json_head proof w now store h instrs body body
          wire_in stream greeted (rebuild_whole store h instrs body unsplit d))
  serves_body (c ∷ cs) store h instrs literal body wire_in stream greeted packed wired
        (small, smalls) unsplit d fits e =
      let so_far : (literal ++ c) ++ concat cs ≡ body = append_assoc literal c (concat cs) ∙ e in
      let short : length (literal ++ c) ≤ max_body_bytes =
        omega (arith, fits, ap length so_far, length-append (literal ++ c) (concat cs)) in
      let (n, step) =
        body_step store h instrs literal c wire_in stream greeted packed wired small short in
      serves_step cfg blake3 unzstd json_hello json_head proof w now _ _ _ _ [] step
      ∙ serves_body cs store h instrs (literal ++ c) body n stream greeted packed wired smalls
          unsplit d fits so_far

  serves-whole :
      (store : Inner) (hd : Option RequestHead) (instrs : List Instr) (h : RequestHead)
      (body : List ℕ) (wire_in stream : ℕ) (greeted packed : Bool)
      → IsPacking w.bulk_compress unzstd
      → json_head (w.head_json h) ≡ ok h
      → (not greeted && needs_proof cfg blake3 unzstd json_hello json_head proof) ≡ false
      → h.split ≡ false
      → is_declared blake3 h body ≡ true
      → length body ≤ max_body_bytes
      → serves cfg blake3 unzstd json_hello json_head proof w now
          (waiting store hd instrs wire_in greeted)
          (head_frame w stream h
            ∷ (payload_frames w stream packed (whole body) ++ (end_frame w stream ∷ [])))
        ≡ forwarded h body ∷ []
  unfolding payload_frames
  serves-whole store hd instrs h body wire_in stream greeted packed wired reads trusted unsplit d
        fits =
      serves_step cfg blake3 unzstd json_hello json_head proof w now _ _ _ _ [] (
        head_step cfg blake3 unzstd json_hello json_head proof w now store hd instrs h wire_in
          stream greeted reads trusted)
      ∙ serves_body (chunks body) store h instrs [] body _ stream greeted packed wired
          (chunks_small body) unsplit d fits (concat-chunks body)

  -- A body that is sent whole reaches the upstream: of the frames that `local_end` uploads for it, on
  -- the first request of a connection or a later one, compressed or not, a peer that waits for a
  -- request and trusts the connection acknowledges the greeting, if there is one, and then forwards
  -- exactly the body with its head, once, and nothing else. The head declares the body's length and
  -- digest, the body is within the peer's limit, each end reads the greeting and the head that the other
  -- writes, and a zstd decoder of what `zstd::bulk::compress` packed
  -- reads the payload from its start.
  pub remote_end-request_frames :
      (conn : Conn) (head : RequestHead) (body : List ℕ) (st : LinkState) (store : Inner)
      (hd : Option RequestHead) (instrs : List Instr) (wire_in : ℕ) (greeted : Bool)
      → IsWired cfg blake3 unzstd json_hello json_head proof w now
          (hello_of st)
          (record head { split = false })
      → IsTrusted cfg blake3 unzstd json_hello json_head proof w now conn st greeted
      → head.body_len ≡ length body
      → head.body_digest ≡ digest_of blake3 raw body
      → length body ≤ max_body_bytes
      → serves cfg blake3 unzstd json_hello json_head proof w now
          (waiting store hd instrs wire_in greeted)
          (request_frames w conn head (whole body) st)
        ≡ (if conn.requests == 1 then acked true ∷ [] else [])
          ++ (forwarded (record head { split = false }) body ∷ [])
  unfolding is_split
  remote_end-request_frames conn head body st store hd instrs wire_in greeted wired trusted len dig
        fits =
      serves-request_frames cfg blake3 unzstd json_hello json_head proof w now conn head
        (whole body) body st store hd instrs wire_in greeted wired.reads_hello trusted
        (λ n g t.
          serves-whole store hd instrs (record head { split = false }) body n conn.id g st.compress
            wired.packing wired.reads_head t refl
            (is_declared_lem blake3 (record head { split = false }) body len dig) fits)
