-- ===== src/Splitter.antt =====
-- crates/muka-split/src/splitter.rs: the builder that turns candidate spans into a program.
-- The peer's presence is a function, the local store an abstract state with `has` and `put`, and
-- BLAKE3 a parameter. `reference` returns a flag that neither caller reads; it is left out.
pub mod Literals
pub mod Blocks
pub mod Identity
pub mod Candidates
pub mod Inside
pub mod Placed
pub mod Distinct
pub mod Fit
pub mod Opened
pub mod Body
pub mod Refs
pub mod Closed
pub mod Whole
pub mod Delivered
use muka_ai_trim.Common.{
  ℕ, zero, suc, ◌+◌, ◌-◌, ◌%◌, ◌^◌, min, max, Bool, true, false, ◌||◌, ◌&&◌, not, List, [], ◌∷◌,
  ◌++◌, ltb, ◌==◌, if◌then◌else◌, length, u64_mod,
}
use muka_ai_trim.Digest.{Digest, BlockKind, digest_of}
use muka_ai_trim.Json.{Span, span_len, slice}
use muka_ai_trim.Policy.{
  Policy, SplitStats, inflates, Skip, Cand, Group, limits, unrecognised, disabled, too_small,
  too_large,
}
use muka_ai_trim.Program.{
  Instr, lit, ref, Block, raw_block, program_block, wire_cost, program_wire_cost, normalize,
}
use muka_ai_trim.Resolve.{contains, is_empty}

pub record SplitOutput : Type 0 where
  pub instrs : List Instr
  pub to_push : List Block
  pub stats : SplitStats

pub data Action : Type 0 where
  split : SplitOutput → Action
  passthrough : Skip → Action

abbrev pub inc_u32 : ℕ → ℕ
inc_u32 n = (n + 1) % 2 ^ 32

abbrev pub add_u64 : ℕ → ℕ → ℕ
add_u64 a b = (a + b) % u64_mod

pub record Builder (S : Type 0) : Type 0 where
  pub instrs : List Instr
  pub push : List Block
  pub queued : List Digest
  pub pos : ℕ
  pub stats : SplitStats
  pub limits : Bool
  pub local : S

-- What the splitter needs from outside: `Ctx` and the hash.
pub record Ctx (S : Type 0) : Type 0 where
  pub peer : Digest → Bool
  pub local_has : S → Digest → Bool
  pub local_put : S → Block → S
  pub policy : Policy
  pub blake3 : List ℕ → List ℕ

module _ {S : Type 0} where
  unfoldable pub new_builder : List ℕ → S → Builder S
  new_builder body local = record {
    instrs = [];
    push = [];
    queued = [];
    pos = 0;
    stats = record {
      body_len = length body;
      lit_bytes = 0;
      instrs = 0;
      refs = 0;
      refs_hit = 0;
      refs_new = 0;
      ref_covered = 0;
      blocks_created = 0;
      push_blocks = 0;
      push_bytes = 0;
      instr_overhead = 0;
      structural = false;
      cdc_used = false;
    };
    limits = false;
    local = local;
  }

  -- `Builder::lit`: flush the literal run up to `end`.
  unfoldable pub flush : List ℕ → ℕ → Builder S → Builder S
  flush body end b =
      let end' : ℕ = min end (length body) in
      if ltb b.pos end'
      then record b {
        instrs = b.instrs ++ (lit (slice (record { start = b.pos; end = end' }) body) ∷ []);
        stats = record b.stats { lit_bytes = add_u64 b.stats.lit_bytes (end' - b.pos) };
        pos = end';
      }
      else b

module _ {S : Type 0} (ctx : Ctx S) where
  unfoldable pub queue : Block → Builder S → Builder S
  queue block b = if contains b.queued block.digest then b else record b {
    queued = b.queued ++ (block.digest ∷ []);
    stats = record b.stats {
      blocks_created = inc_u32 b.stats.blocks_created;
      push_bytes = add_u64 b.stats.push_bytes (wire_cost block);
      push_blocks = inc_u32 b.stats.push_blocks;
    };
    local = if ctx.local_has b.local block.digest then b.local else ctx.local_put b.local block;
    push = b.push ++ (block ∷ []);
  }

  -- The loop of `make_block`: the builder, the nested program and the position in the body.
  pub record Nest : Type 0 where
    pub builder : Builder S
    pub nested : List Instr
    pub at : ℕ

  unfoldable pub count_hit : Builder S → Builder S
  count_hit b = record b { stats = record b.stats { refs_hit = inc_u32 b.stats.refs_hit } }

  unfoldable pub count_nested : Builder S → Builder S
  count_nested b = record b { stats = record b.stats { refs = inc_u32 b.stats.refs } }

  unfoldable pub nest_child : List ℕ → Cand → Cand → Nest → Nest
  nest_child body c ch n =
      if ltb ch.span.start n.at || (ltb c.span.end ch.span.end || ltb (span_len ch.span) ch.floor)
      then n
      else let cd : Digest = digest_of ctx.blake3 ch.kind (slice ch.span body) in
        let gap : List Instr =
          if ltb n.at ch.span.start
          then lit (slice (record { start = n.at; end = ch.span.start }) body) ∷ []
          else [] in
        let b : Builder S = count_nested n.builder in
        record {
          builder =
              if ctx.peer cd
              then count_hit b
              else queue (raw_block cd ch.kind (slice ch.span body)) b;
          nested = n.nested ++ (gap ++ (ref cd (span_len ch.span) ∷ []));
          at = ch.span.end;
        }

  unfoldable pub nest_children : List ℕ → Cand → List Cand → Nest → Nest
  nest_children body c [] n = n
  nest_children body c (ch ∷ inner) n = nest_children body c inner (nest_child body c ch n)

  unfoldable pub close_nest : List ℕ → Cand → Nest → List Instr
  close_nest body c n = normalize (
      n.nested
      ++ (if ltb n.at c.span.end
          then lit (slice (record { start = n.at; end = c.span.end }) body) ∷ []
          else []))

  -- A program of one literal as long as the data is replaced by the data itself.
  unfoldable pub shape_block : Digest → BlockKind → List ℕ → List Instr → Block
  shape_block d kind span_bytes (lit b ∷ []) =
      if length b == length span_bytes
      then raw_block d kind span_bytes
      else program_block d kind (length span_bytes) (lit b ∷ [])
  shape_block d kind span_bytes instrs = program_block d kind (length span_bytes) instrs

  unfoldable pub make_block : List ℕ → Digest → Cand → List Cand → Builder S → Builder S × Block
  make_block body d c inner b =
      if is_empty inner
      then (b, raw_block d c.kind (slice c.span body))
      else let n : Nest =
          nest_children body c inner (record { builder = b; nested = []; at = c.span.start }) in
        (n.builder, shape_block d c.kind (slice c.span body) (close_nest body c n))

  unfoldable pub count_ref : ℕ → Builder S → Builder S
  count_ref n b = record b {
    stats = record b.stats {
      refs = inc_u32 b.stats.refs;
      ref_covered = add_u64 b.stats.ref_covered n;
    };
  }

  unfoldable pub count_new : Builder S → Builder S
  count_new b = record b { stats = record b.stats { refs_new = inc_u32 b.stats.refs_new } }

  unfoldable pub offer : List ℕ → Digest → Cand → List Cand → Builder S → Builder S
  offer body d c inner b =
      if ctx.peer d
      then count_hit b
      else let (b', block) = make_block body d c inner (count_new b) in queue block b'

  unfoldable pub put_ref : Digest → ℕ → ℕ → Builder S → Builder S
  put_ref d len end b =
      let instrs' : List Instr = b.instrs ++ (ref d len ∷ []) in
      record b {
        instrs = instrs';
        pos = end;
        limits = b.limits || ltb ctx.policy.max_instrs (length instrs');
      }

  unfoldable pub reference : List ℕ → Cand → List Cand → Builder S → Builder S
  reference body c inner b =
      let span_bytes : List ℕ = slice c.span body in
      if ltb (length span_bytes) c.floor || ltb c.span.start b.pos
      then b
      else let d : Digest = digest_of ctx.blake3 c.kind span_bytes in
        put_ref d (length span_bytes) c.span.end
          (offer body d c inner (count_ref (length span_bytes) (flush body c.span.start b)))

  unfoldable pub reference_all : List ℕ → List Group → Builder S → Builder S
  reference_all body [] b = b
  reference_all body (g ∷ gs) b = reference_all body gs (reference body g.cand g.children b)

  unfoldable pub seal : List ℕ → Builder S → SplitOutput
  seal body b =
      let instrs' : List Instr = normalize b.instrs in
      record {
        instrs = instrs';
        to_push = b.push;
        stats = record b.stats {
          instrs = length b.instrs % 2 ^ 32;
          instr_overhead = program_wire_cost instrs' - b.stats.lit_bytes;
        };
      }

  unfoldable pub finish : List ℕ → Builder S → Action
  finish body b =
      if b.limits
      then passthrough limits
      else let b' : Builder S = flush body (length body) b in
        if b'.stats.refs == 0
        then passthrough unrecognised
        else if inflates (seal body b').stats
        then passthrough limits
        else split (seal body b')

  -- The tail of `split_body`, from the groups of candidates on: the literal up to the end, then
  -- `finish`.
  unfoldable pub split_groups : List ℕ → List Group → Builder S → Action
  split_groups body groups b = finish body (flush body (length body) (reference_all body groups b))
