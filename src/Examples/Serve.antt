-- ===== src/Examples/Serve.antt =====
-- A connection of a head frame, the whole body and the end of the body.
use muka_ai_trim.Examples.Packed.{codec}
use muka_ai_trim.Common.{ℕ, List, [], ◌∷◌, ◌≡◌, refl, ok, err, none, drop, All, bytes_eq, false}
use muka_ai_trim.Digest.{digest_of, le_bytes}
use muka_ai_trim.Codec.{Frame, request_head, request_body, end_of_body}
use muka_ai_trim.Message.{RequestHead, chat_completions}
use muka_ai_trim.Store.{default_config, empty_inner, read_all}
use muka_ai_trim.Session.{
  after_rebuild, assemble, forwarded, frame_charge, in_phase, is_declared, new_remote, on_body,
  on_end_of_body, on_request_head, plain_payload, plain_tag, rebuild, rebuild_reads, remote_end,
  remote_step, serve_frame,
}
use muka_ai_trim.Session.Rebuilt.{IsVerified, remote_end-IsVerified}

abbrev hash : List ℕ → List ℕ
hash = drop 21

abbrev body : List ℕ
body = 104 ∷ 101 ∷ 106 ∷ []

abbrev head : RequestHead
head = record {
  method = "POST";
  path = [];
  headers = [];
  body_len = 3;
  body_digest = 104 ∷ 101 ∷ 106 ∷ [];
  kind = chat_completions;
  split = false;
}

abbrev frames : List Frame
frames =
    record { tag = request_head; stream = 1; payload = [] }
    ∷ record { tag = request_body; stream = 1; payload = body }
    ∷ record { tag = end_of_body; stream = 1; payload = [] }
    ∷ []

serve_example : All (IsVerified hash) (
    remote_end default_config hash codec
      (λ p. err "bad")
      (λ p. ok head)
      none
      5
      (new_remote empty_inner)
      frames)
serve_example =
    remote_end-IsVerified default_config hash codec (λ p. err "bad") (λ p. ok head) none 5
      (new_remote empty_inner) frames

-- The connection forwards the body once.
forwards :
    remote_end default_config hash codec
      (λ p. err "bad")
      (λ p. ok head)
      none
      5
      (new_remote empty_inner)
      frames
    ≡ forwarded head body ∷ []
unfolding remote_end remote_step in_phase serve_frame on_request_head on_body on_end_of_body
    after_rebuild rebuild rebuild_reads read_all assemble is_declared plain_payload plain_tag
    frame_charge digest_of le_bytes bytes_eq
forwards = refl
