-- ===== src/Session/Exchange.antt =====
-- A split request on a connection: what `remote_end` makes of the frames that `local_end` uploads for
-- it (crates/muka-gateway/src/session.rs).
use muka_ai_trim.Common.{
  ℕ, ◌+◌, ◌%◌, ◌≤◌, ◌<◌, ◌^◌, ◌≡◌, refl, ◌∙◌, arith, Bool, true, false, Option, none, List, [], ◌∷◌,
  ◌++◌, length, Result, ok, All, u64_mod, ◌==◌, if◌then◌else◌, Bool-cases, inl, inr, not, ◌&&◌,
}
use muka_ai_trim.Codec.{
  Frame, program_tag, decode_program, encode_program, decode_block_frame, encode_block_frame,
}
use muka_ai_trim.Codec.Blocks.{IsWireBlock, decode_block_frame-encode_block_frame}
use muka_ai_trim.Codec.Programs.{IsWireInstr, decode_program-encode_program}
use muka_ai_trim.Digest.{Digest, BlockKind, digest_of, raw}
use muka_ai_trim.Message.{RequestHead}
use muka_ai_trim.Program.{Instr, Block, BlockBody, bytes, program}
use muka_ai_trim.Session.{
  Hello, Remote, acked, forwarded, max_instrs, upload_frame, frame_charge, needs_proof, on_program,
  on_block, keep_block, in_phase, remote_step, rebuild,
}
use muka_ai_trim.Session.Kept.{keep_one, keep_all}
use muka_ai_trim.Session.Local.{
  Payload, Conn, LinkState, Wire, hello_of, head_frame, end_frame, block_tag, block_frame,
  block_frames, payload_frames, request_frames, is_split,
}
use muka_ai_trim.Session.Local
use muka_ai_trim.Session.Pushed.{IsPeerReady, keep_all-IsReady}
use muka_ai_trim.Session.Handled.{handled, upload-handled}
use muka_ai_trim.Session.Steps.{
  reading, waiting, IsWired, IsTrusted, serves, serves_step, serves_end, head_step,
  serves-request_frames,
}
use muka_ai_trim.Session.Split.{rebuild-split_body}
use muka_ai_trim.Session.Upload.{IsUpload, of_program, of_block_bytes, of_block_program}
use muka_ai_trim.Splitter.{Ctx, SplitOutput, split}
use muka_ai_trim.Splitter.Blocks.{Names}
use muka_ai_trim.Splitter.Body.{split_body}
use muka_ai_trim.Splitter.Fit.{Kinds}
use muka_ai_trim.Store.{Config, Inner, has}
use muka_ai_trim.Compress.{Unzstd, IsPacking, max_decompressed}
use Prim.Native.String.{String}

-- A split that fits the wire: what the codec asks of its program and blocks, and that each of their
-- frames is within the ceiling of decompression.
pub record IsWireSplit (out : SplitOutput) : Type 0 where
  pub instrs : All IsWireInstr out.instrs
  pub count : length out.instrs ≤ max_instrs
  pub blocks : All (IsWireBlock max_instrs) out.to_push
  pub program_size : length (encode_program out.instrs) ≤ max_decompressed
  pub block_sizes : All (λ b. length (encode_block_frame b) ≤ max_decompressed) out.to_push

module _ (cfg : Config) (blake3 : List ℕ → List ℕ) {D : Type 0} (unzstd : Unzstd D)
    (json_hello : List ℕ → Result String Hello) (json_head : List ℕ → Result String RequestHead)
    (proof : Option (List ℕ)) (w : Wire) (now : ℕ)
    (packing : IsPacking w.bulk_compress unzstd) where
  program_step :
      (store : Inner) (h : RequestHead) (is old : List Instr) (wire_in stream : ℕ)
      (greeted packed : Bool)
      → All IsWireInstr is
      → length is ≤ max_instrs
      → length (encode_program is) ≤ max_decompressed
      → (n : ℕ) × (remote_step cfg blake3 unzstd json_hello json_head proof now
            (reading store h old [] wire_in greeted)
            (upload_frame w.bulk_compress program_tag stream (encode_program is) packed)
          ≡ record { state = reading store h is [] n greeted; effects = []; ended = none })
  unfolding remote_step in_phase on_program
  program_step store h is old wire_in stream greeted packed wire count small =
      let f : Frame = upload_frame w.bulk_compress program_tag stream (encode_program is) packed in
      let n : ℕ = (wire_in + frame_charge f) % u64_mod in
      let read : decode_program (encode_program is) max_instrs ≡ ok is =
        decode_program-encode_program is max_instrs wire count (omega arith) in
      (
        n,
        upload-handled cfg blake3 unzstd json_hello json_head proof w now packing program_tag
              of_program (reading store h old [] n greeted) stream (encode_program is) packed small
            ∙ rw read refl,
      )

  keep_block-reading :
      (store : Inner) (h : RequestHead) (is : List Instr) (n : ℕ) (greeted : Bool) (b : Block)
      → keep_block cfg blake3 unzstd json_hello json_head proof now
          (reading store h is [] n greeted)
          b
        ≡ reading (keep_one cfg blake3 now b store) h is [] n greeted
  unfolding keep_block
  keep_block-reading store h is n greeted b = elim (Bool-cases (has store b.digest)) [
    | inl old ↦ rw old refl
    | inr new ↦ rw new refl
  ]

  block_IsUpload : (x : BlockBody) → IsUpload (block_tag x)
  unfolding block_tag
  block_IsUpload (bytes x) = of_block_bytes
  block_IsUpload (program p) = of_block_program

  block-handled :
      (x : BlockBody) (s : Remote) (p : List ℕ)
      → handled cfg blake3 unzstd json_hello json_head proof w now packing (block_IsUpload x) s p
        ≡ on_block cfg blake3 unzstd json_hello json_head proof now s
            (decode_block_frame p max_instrs)
  unfolding block_IsUpload block_tag
  block-handled (bytes x) s p = refl
  block-handled (program q) s p = refl

  block_step :
      (store : Inner) (h : RequestHead) (is : List Instr) (b : Block) (wire_in stream : ℕ)
      (greeted packed : Bool)
      → IsWireBlock max_instrs b
      → length (encode_block_frame b) ≤ max_decompressed
      → (n : ℕ) × (remote_step cfg blake3 unzstd json_hello json_head proof now
            (reading store h is [] wire_in greeted)
            (block_frame w b stream packed)
          ≡ record {
            state = reading (keep_one cfg blake3 now b store) h is [] n greeted;
            effects = [];
            ended = none;
          })
  unfolding remote_step in_phase on_block block_frame
  block_step store h is b wire_in stream greeted packed wire small =
      let n : ℕ = (wire_in + frame_charge (block_frame w b stream packed)) % u64_mod in
      let s : Remote = reading store h is [] n greeted in
      let read : decode_block_frame (encode_block_frame b) max_instrs ≡ ok b =
        decode_block_frame-encode_block_frame b max_instrs (omega arith) wire in
      (
        n,
        upload-handled cfg blake3 unzstd json_hello json_head proof w now packing (block_tag b.body)
              (block_IsUpload b.body) s stream (encode_block_frame b) packed small
            ∙ block-handled b.body s (encode_block_frame b)
            ∙ rw (read, keep_block-reading store h is n greeted b) refl,
      )

  serves_blocks :
      (bs : List Block) (store : Inner) (h : RequestHead) (is : List Instr) (body : List ℕ)
      (wire_in stream : ℕ) (greeted packed : Bool)
      → All (IsWireBlock max_instrs) bs
      → All (λ b. length (encode_block_frame b) ≤ max_decompressed) bs
      → rebuild blake3 (keep_all cfg blake3 now bs store) h is [] ≡ ok body
      → serves cfg blake3 unzstd json_hello json_head proof w now
          (reading store h is [] wire_in greeted)
          (block_frames w stream packed bs ++ (end_frame w stream ∷ []))
        ≡ forwarded h body ∷ []
  unfolding block_frames
  serves_blocks [] store h is body wire_in stream greeted packed ws ss rebuilt =
      serves_end cfg blake3 unzstd json_hello json_head proof w now store h is [] body wire_in
        stream greeted rebuilt
  serves_blocks (b ∷ bs) store h is body wire_in stream greeted packed (wire, ws) (small, ss)
        rebuilt =
      let (n, step) = block_step store h is b wire_in stream greeted packed wire small in
      serves_step cfg blake3 unzstd json_hello json_head proof w now _ _ _ _ [] step
      ∙ serves_blocks bs (keep_one cfg blake3 now b store) h is body n stream greeted packed ws ss
          rebuilt

  serves-split :
      (out : SplitOutput) (store : Inner) (hd : Option RequestHead) (old : List Instr)
      (h : RequestHead) (body : List ℕ) (wire_in stream : ℕ) (greeted packed : Bool)
      → IsWireSplit out
      → json_head (w.head_json h) ≡ ok h
      → (not greeted && needs_proof cfg blake3 unzstd json_hello json_head proof) ≡ false
      → rebuild blake3 (keep_all cfg blake3 now out.to_push store) h out.instrs [] ≡ ok body
      → serves cfg blake3 unzstd json_hello json_head proof w now
          (waiting store hd old wire_in greeted)
          (head_frame w stream h
            ∷ (payload_frames w stream packed (Local.split out) ++ (end_frame w stream ∷ [])))
        ≡ forwarded h body ∷ []
  unfolding payload_frames
  serves-split out store hd old h body wire_in stream greeted packed wire reads trusted rebuilt =
      let n₀ : ℕ = (wire_in + frame_charge (head_frame w stream h)) % u64_mod in
      let (n, step) =
        program_step store h out.instrs old n₀ stream greeted packed wire.instrs wire.count
          wire.program_size in
      serves_step cfg blake3 unzstd json_hello json_head proof w now _ _ _ _ [] (
        head_step cfg blake3 unzstd json_hello json_head proof w now store hd old h wire_in stream
          greeted reads trusted)
      ∙ serves_step cfg blake3 unzstd json_hello json_head proof w now _ _ _ _ [] step
      ∙ serves_blocks out.to_push store h out.instrs body n stream greeted packed wire.blocks
          wire.block_sizes rebuilt

module _ {S : Type 0} (ctx : Ctx S) (content : Digest → List ℕ) (kind_of : Digest → BlockKind)
    (body : List ℕ) (names : Names ctx.blake3 content body) (kinds : Kinds ctx.blake3 kind_of body)
    (cfg : Config) {D : Type 0} (unzstd : Unzstd D) (json_hello : List ℕ → Result String Hello)
    (json_head : List ℕ → Result String RequestHead) (proof : Option (List ℕ)) (w : Wire)
    (now : ℕ) where
  lens : (bs : List Block) → All (IsWireBlock max_instrs) bs → All (λ b. b.len < 2 ^ 64) bs
  lens [] h = tt
  lens (b ∷ bs) (h, hs) = (h.len_u64, lens bs hs)

  -- A body that is sent split reaches the upstream: of the frames that `local_end` uploads for a
  -- split of it (the program and the pushed blocks), on the first request of a connection or a later
  -- one, compressed or not, a peer that waits for a request and trusts the connection acknowledges
  -- the greeting, if there is one, and then forwards exactly the body with its head, once, and asks
  -- for nothing. The head declares the body's length, below 2^64 - 1, and its digest; the split fits
  -- the wire, each frame of it at most 64 MiB; each end reads the greeting and the head that the
  -- other writes, and a zstd decoder of what `zstd::bulk::compress` packed
  -- reads the payload from its start. Before the request the peer's store, whose ceiling is below 2^64 bytes, has
  -- what the splitter took it to have, under each digest only what it names, all of which can be
  -- expanded at a depth of 31, and it has room for the pushed blocks. On the slices of this body no
  -- two contents and no two kinds share a digest.
  pub remote_end-split_body :
      (conn : Conn) (head : RequestHead) (local : S) (out : SplitOutput) (st : LinkState)
      (store : Inner) (hd : Option RequestHead) (old : List Instr) (wire_in : ℕ) (greeted : Bool)
      → split_body ctx body local ≡ split out
      → IsWireSplit out
      → IsPeerReady ctx content kind_of body names kinds cfg now store out.to_push
      → cfg.max_bytes < 2 ^ 64
      → IsWired cfg ctx.blake3 unzstd json_hello json_head proof w now
          (hello_of st)
          (record head { split = true })
      → IsTrusted cfg ctx.blake3 unzstd json_hello json_head proof w now conn st greeted
      → head.body_len ≡ length body
      → head.body_digest ≡ digest_of ctx.blake3 raw body
      → length body + 1 < 2 ^ 64
      → serves cfg ctx.blake3 unzstd json_hello json_head proof w now
          (waiting store hd old wire_in greeted)
          (request_frames w conn head (Local.split out) st)
        ≡ (if conn.requests == 1 then acked true ∷ [] else [])
          ++ (forwarded (record head { split = true }) body ∷ [])
  unfolding is_split
  remote_end-split_body conn head local out st store hd old wire_in greeted e wire ready small wired
        trusted len dig short =
      let h : RequestHead = record head { split = true } in
      let kept =
        keep_all-IsReady ctx content kind_of body names kinds cfg now local out store e small
          (lens out.to_push wire.blocks) ready in
      let rebuilt =
        rebuild-split_body ctx content kind_of body names kinds local out
          (keep_all cfg ctx.blake3 now out.to_push store) h [] e kept refl len dig short in
      serves-request_frames cfg ctx.blake3 unzstd json_hello json_head proof w now conn head
        (Local.split out) body st store hd old wire_in greeted wired.reads_hello trusted
        (λ n g t.
          serves-split cfg ctx.blake3 unzstd json_hello json_head proof w now wired.packing out
            store hd old h body n conn.id g st.compress wire wired.reads_head t rebuilt)
