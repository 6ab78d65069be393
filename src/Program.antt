-- ===== src/Program.antt =====
-- crates/muka-split/src/program.rs: instructions, blocks, their wire cost, and `normalize`.
-- `Bytes` is a list of numbers. Sums of `u64` wrap, as in the release build.
pub mod Meaning
pub mod Normal
use muka_ai_trim.Common.{
  ℕ, zero, suc, ◌+◌, ◌%◌, Bool, true, false, List, [], ◌∷◌, ◌++◌, ◌==◌, if◌then◌else◌, length,
  u64_mod,
}
use muka_ai_trim.Digest.{Digest, digest_len, BlockKind}

pub data Instr : Type 0 where
  lit : List ℕ → Instr
  ref : Digest → ℕ → Instr

unfoldable pub out_len : Instr → ℕ
out_len (lit b) = length b
out_len (ref digest len) = len

pub data BlockBody : Type 0 where
  bytes : List ℕ → BlockBody
  program : List Instr → BlockBody

pub record Block : Type 0 where
  pub digest : Digest
  pub kind : BlockKind
  pub len : ℕ
  pub body : BlockBody

unfoldable pub raw_block : Digest → BlockKind → List ℕ → Block
raw_block digest kind b = record { digest = digest; kind = kind; len = length b; body = bytes b }

unfoldable pub program_block : Digest → BlockKind → ℕ → List Instr → Block
program_block digest kind len instrs = record {
  digest = digest;
  kind = kind;
  len = len;
  body = program instrs;
}

-- `REF_WIRE` and `LIT_HDR` of policy.rs.
abbrev pub ref_wire : ℕ
ref_wire = 1 + digest_len + 3

abbrev pub lit_hdr : ℕ
lit_hdr = 1 + 3

unfoldable pub instr_wire_cost : Instr → ℕ
instr_wire_cost (lit b) = length b + lit_hdr
instr_wire_cost (ref digest len) = ref_wire

-- `iter().sum()` on `u64`.
unfoldable pub sum_u64 : ℕ → List ℕ → ℕ
sum_u64 acc [] = acc
sum_u64 acc (x ∷ xs) = sum_u64 ((acc + x) % u64_mod) xs

abbrev pub map_instrs : (Instr → ℕ) → List Instr → List ℕ
map_instrs f [] = []
map_instrs f (i ∷ is) = f i ∷ map_instrs f is

unfoldable pub program_wire_cost : List Instr → ℕ
program_wire_cost instrs = sum_u64 0 (map_instrs instr_wire_cost instrs)

unfoldable pub total_len : List Instr → ℕ
total_len instrs = sum_u64 0 (map_instrs out_len instrs)

unfoldable pub wire_cost : Block → ℕ
wire_cost b = elim b.body [ bytes x ↦ length x | program p ↦ program_wire_cost p ]

-- One round of `normalize`: the instruction meets the last one of `out`.
unfoldable pub push_instr : List Instr → Instr → List Instr
push_instr [] (lit b) = elim b [ [] ↦ [] | x ∷ r ↦ lit (x ∷ r) ∷ [] ]
push_instr [] (ref d n) = ref d n ∷ []
push_instr (lit prev ∷ []) (lit next) = lit (prev ++ next) ∷ []
push_instr (lit prev ∷ []) (ref d n) = lit prev ∷ ref d n ∷ []
push_instr (ref e m ∷ []) (lit b) = elim b [
  | [] ↦ ref e m ∷ []
  | x ∷ r ↦ ref e m ∷ lit (x ∷ r) ∷ []
]
push_instr (ref e m ∷ []) (ref d n) = ref e m ∷ ref d n ∷ []
push_instr (a ∷ b ∷ out) i = a ∷ push_instr (b ∷ out) i

unfoldable pub normalize_loop : List Instr → List Instr → List Instr
normalize_loop out [] = out
normalize_loop out (i ∷ is) = normalize_loop (push_instr out i) is

unfoldable pub normalize : List Instr → List Instr
normalize = normalize_loop []
