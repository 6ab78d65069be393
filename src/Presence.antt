-- ===== src/Presence.antt =====
-- crates/muka-split/src/presence.rs, memory.rs and `SharedBloom` of crates/muka-gateway/src/session.rs:
-- what the sender believes that the peer holds, and the store in memory. The locks are not modelled.
use muka_ai_trim.Common.{
  ℕ, ◌+◌, ◌%◌, Bool, true, false, Option, none, some, List, [], ◌∷◌, if◌then◌else◌, bytes_eq,
  u64_mod,
}
use muka_ai_trim.Bloom.{Bloom, empty_bloom}
use muka_ai_trim.Bloom
use muka_ai_trim.Digest.{Digest}
use muka_ai_trim.Program.{Block}
use muka_ai_trim.Resolve.{contains}

unfoldable pub never : Digest → Bool
never d = false

-- `HashSet::insert` of each.
unfoldable pub note_pushed : List Digest → List Digest → List Digest
note_pushed [] sent = sent
note_pushed (d ∷ ds) sent = note_pushed ds (if contains sent d then sent else d ∷ sent)

-- `Optimistic::has`, over the digests sent and the base.
unfoldable pub believes : (Digest → Bool) → List Digest → Digest → Bool
believes base sent d = if contains sent d then true else base d

-- `SharedBloom::has`: `contended` is a failure of `try_read`. The panic of a filter of no bits is
-- passed on.
unfoldable pub shared_has : (List ℕ → List ℕ) → Bool → Bloom → Digest → Option Bool
shared_has blake3 contended b d = if contended then some false else Bloom.has blake3 b d

-- `SharedBloom::clear`
unfoldable pub forget : Bloom → Bloom
forget b = empty_bloom

abbrev pub MemStore : Type 0
MemStore = List (Digest × Block)

unfoldable pub mem_get : MemStore → Digest → Option Block
mem_get [] d = none
mem_get ((k, b) ∷ m) d = if bytes_eq k d then some b else mem_get m d

unfoldable pub mem_has : MemStore → Digest → Bool
mem_has m d = elim (mem_get m d) [ none ↦ false | some b ↦ true ]

-- `HashMap::insert` replaces the block of a key that is there.
unfoldable pub mem_set : Block → MemStore → MemStore
mem_set b [] = (b.digest, b) ∷ []
mem_set b ((k, x) ∷ m) =
    let others = (k, x) ∷ mem_set b m in if bytes_eq k b.digest then (k, b) ∷ m else others

unfoldable pub mem_put : Block → MemStore → MemStore × Bool
mem_put b m = (mem_set b m, if mem_has m b.digest then false else true)

unfoldable pub mem_delete : Digest → MemStore → MemStore
mem_delete d [] = []
mem_delete d ((k, b) ∷ m) =
    let others = mem_delete d m in if bytes_eq k d then others else (k, b) ∷ others

unfoldable pub mem_remove : Digest → MemStore → MemStore × Option Block
mem_remove d m = (mem_delete d m, mem_get m d)

unfoldable pub mem_bytes : MemStore → ℕ
mem_bytes [] = 0
mem_bytes ((k, b) ∷ m) = (b.len + mem_bytes m) % u64_mod
