-- ===== src/Codec/Tags.antt =====
-- The tag byte of crates/muka-proto/src/codec.rs and its reading.
use muka_ai_trim.Common.{◌≡◌, refl, ok}
use muka_ai_trim.Codec.{Tag, hello, tag_u8, tag_from_u8}

-- `from_u8` reads every tag back from its byte.
pub tag_from_u8-tag_u8 : (t : Tag) → tag_from_u8 (tag_u8 t) ≡ ok t
unfolding tag_from_u8 tag_u8
tag_from_u8-tag_u8 hello = refl
tag_from_u8-tag_u8 t = refl
