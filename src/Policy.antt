-- ===== src/Policy.antt =====
-- crates/muka-split/src/policy.rs: tunables, the split statistics, candidates and outcomes.
-- The ratio `saved_ratio` is a float for the console and is left out.
use muka_ai_trim.Common.{ℕ, ◌+◌, ◌-◌, ◌/◌, ◌%◌, ◌^◌, Bool, true, List, ltb, max, min, u64_mod}
use muka_ai_trim.Digest.{BlockKind}
use muka_ai_trim.Json.{Span}
use Prim.Native.String.{String}

pub record Policy : Type 0 where
  pub enabled : Bool
  pub min_body_bytes : ℕ
  pub min_block_bytes : ℕ
  pub min_history_block_bytes : ℕ
  pub min_payload_bytes : ℕ
  pub max_body_bytes : ℕ
  pub max_instrs : ℕ
  pub max_depth : ℕ
  pub cdc_min : ℕ
  pub cdc_max : ℕ
  pub cdc_bits : ℕ
  pub cdc_fallback : Bool

abbrev pub default_policy : Policy
default_policy = record {
  enabled = true;
  min_body_bytes = 4096;
  min_block_bytes = 384;
  min_history_block_bytes = 128;
  min_payload_bytes = 4096;
  max_body_bytes = 536_870_912;
  max_instrs = 200_000;
  max_depth = 6;
  cdc_min = 8192;
  cdc_max = 131_072;
  cdc_bits = 15;
  cdc_fallback = true;
}

-- `h & cdc_mask` is `h % 2 ^ min(cdc_bits, 40)`.
unfoldable pub cdc_mask : Policy → ℕ
cdc_mask p = 2 ^ min p.cdc_bits 40 - 1

pub record SplitStats : Type 0 where
  pub body_len : ℕ
  pub lit_bytes : ℕ
  pub instrs : ℕ
  pub refs : ℕ
  pub refs_hit : ℕ
  pub refs_new : ℕ
  pub ref_covered : ℕ
  pub blocks_created : ℕ
  pub push_blocks : ℕ
  pub push_bytes : ℕ
  pub instr_overhead : ℕ
  pub structural : Bool
  pub cdc_used : Bool

unfoldable pub wire_bytes : SplitStats → ℕ
wire_bytes s = (s.lit_bytes + s.push_bytes + s.instr_overhead) % u64_mod

unfoldable pub inflates : SplitStats → Bool
inflates s =
    let slack : ℕ = max (s.body_len / 16) 1024 in
    ltb ((s.body_len + slack) % u64_mod) (wire_bytes s)

pub data Skip : Type 0 where
  disabled : Skip
  too_small : ℕ → Skip
  too_large : ℕ → Skip
  unrecognised : Skip
  limits : Skip

unfoldable pub reason : Skip → String
reason disabled = "disabled"
reason (too_small n) = "too_small"
reason (too_large n) = "too_large"
reason unrecognised = "unknown_shape"
reason limits = "limits"

pub record Cand : Type 0 where
  pub span : Span
  pub kind : BlockKind
  pub floor : ℕ

pub record Group : Type 0 where
  pub cand : Cand
  pub children : List Cand
