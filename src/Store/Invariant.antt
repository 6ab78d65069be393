-- ===== src/Store/Invariant.antt =====
-- The invariant of the store of crates/muka-store/src/lib.rs and its operations, one by one and in
-- sequence.
use muka_ai_trim.Common.{
  ℕ, ◌≤◌, ◌≡◌, refl, arith, true, ◌||◌, some, List, [], ◌∷◌, length, Bool-cases, Option-cases, inl,
  inr, ltb, ltb→ge,
}
use muka_ai_trim.Digest.{Digest}
use muka_ai_trim.Program.{Block}
use muka_ai_trim.Store.{
  Config, Entry, Inner, empty_inner, find_entry, has, refresh, touch, block_of, get, total_of,
  victims_of, prune, verifies, reject, add_entry, settle, insert, clear,
}
use muka_ai_trim.Store.Entries.{Each, Each-refresh, Each-without, Each-find_entry, total_of-refresh}

module _ (cfg : Config) (blake3 : List ℕ → List ℕ) where
  -- An entry that may stand under a digest: it verifies, and it is within the size limit.
  pub record IsSound (d : Digest) (e : Entry) : Type 0 where
    pub verified : verifies cfg blake3 e.body e.kind d e.len ≡ true
    pub small : e.len ≤ cfg.max_block_bytes

  abbrev ageless_sound :
      (d : Digest) (e : Entry) (seq at : ℕ)
      → IsSound d e
      → IsSound d (record e { seq = seq; at = at })
  ageless_sound d e seq at h = record { verified = h.verified; small = h.small }

  pub record IsStore (g : Inner) : Type 0 where
    pub sound : Each IsSound ageless_sound g.map
    pub counted : g.total ≡ total_of g.map

  IsStore-empty : IsStore empty_inner
  unfolding total_of
  IsStore-empty = record { sound = tt; counted = refl }

  IsStore-refresh :
      (g : Inner) (d : Digest) (seq at : ℕ)
      → IsStore g
      → Each IsSound ageless_sound (refresh g.map d seq at)
        × (g.total ≡ total_of (refresh g.map d seq at))
  IsStore-refresh g d seq at h = (
    Each-refresh IsSound ageless_sound g.map d seq at h.sound,
    rw (total_of-refresh g.map d seq at) h.counted,
  )

  pub touch-IsStore : (now : ℕ) (d : Digest) (g : Inner) → IsStore g → IsStore (touch now d g)
  unfolding touch
  touch-IsStore now d g h = elim (Bool-cases (has g d)) [
    | inl held ↦
        let (s, c) = IsStore-refresh g d _ now h in rw held (record { sound = s; counted = c })
    | inr absent ↦ rw absent h
  ]

  -- `get` keeps the store sound, and a block that it returns stands under the digest asked for,
  -- verifies against it, and is within the size limit.
  pub get-IsStore :
      (now : ℕ) (d : Digest) (g : Inner)
      → IsStore g
      → IsStore (get now d g).0
        × ((b : Block)
            → (get now d g).1 ≡ some b
            → (b.digest ≡ d)
              × (verifies cfg blake3 b.body b.kind d b.len ≡ true)
              × (b.len ≤ cfg.max_block_bytes))
  unfolding get
  get-IsStore now d g h = elim (Option-cases (find_entry g.map d)) [
    | inl absent ↦ rw (absent, get) (record { sound = h.sound; counted = h.counted }, λ b q. cc)
    | inr (e, found) ↦
        let (s, c) = IsStore-refresh g d _ now h in
        let ok_e = Each-find_entry IsSound ageless_sound g.map d e h.sound found in
        rw (found, get) (record { sound = s; counted = c }, λ b q. given b e ok_e q)
  ]
    where
      given :
          (b : Block) (e : Entry)
          → IsSound d e
          → some (block_of d e) ≡ some b
          → (b.digest ≡ d)
            × (verifies cfg blake3 b.body b.kind d b.len ≡ true)
            × (b.len ≤ cfg.max_block_bytes)
      given b e s q = let same : block_of d e ≡ b = cc in rw (← same) (refl, s.verified, s.small)

  prune-IsStore : (now : ℕ) (g : Inner) → IsStore g → IsStore (prune cfg now g)
  unfolding prune
  prune-IsStore now g h = record {
    sound = Each-without IsSound ageless_sound (victims_of cfg now g) g.map h.sound;
    counted = refl;
  }

  clear-IsStore : (g : Inner) → IsStore (clear g).0
  unfolding clear total_of
  clear-IsStore g = record { sound = tt; counted = refl }

  add_entry-IsStore :
      (now : ℕ) (b : Block) (g : Inner)
      → verifies cfg blake3 b.body b.kind b.digest b.len ≡ true
      → b.len ≤ cfg.max_block_bytes
      → IsStore g
      → IsStore (add_entry cfg blake3 now b g)
  unfolding add_entry total_of
  add_entry-IsStore now b g v s h = record {
    sound = (record { verified = v; small = s }, h.sound);
    counted = omega (arith, h.counted);
  }

  settle-IsStore : (now : ℕ) (g : Inner) → IsStore g → IsStore (settle cfg now g).0
  unfolding settle
  settle-IsStore now g h =
      elim (Bool-cases (ltb cfg.max_bytes g.total || ltb cfg.max_blocks (length g.map))) [
        | inl over ↦ rw over (prune-IsStore now g h)
        | inr under ↦ rw under h
      ]

  -- Whatever block is offered, `insert` keeps the store sound.
  pub insert-IsStore :
      (now : ℕ) (b : Block) (g : Inner) → IsStore g → IsStore (insert cfg blake3 now b g).0
  unfolding insert reject
  insert-IsStore now b g h = elim (Bool-cases (verifies cfg blake3 b.body b.kind b.digest b.len)) [
    | inr bad ↦ rw bad (record { sound = h.sound; counted = h.counted })
    | inl good ↦ elim (Bool-cases (ltb cfg.max_block_bytes b.len)) [
      | inl large ↦ rw (good, large) (record { sound = h.sound; counted = h.counted })
      | inr fits ↦ elim (Bool-cases (has g b.digest)) [
        | inl held ↦ rw (good, fits, held) h
        | inr absent ↦
            let g' = add_entry-IsStore now b g good (ltb→ge _ _ fits) h in
            rw (good, fits, absent) (settle-IsStore now _ g')
      ]
    ]
  ]

  -- One call on the store.
  pub data Op : Type 0 where
    op_insert : ℕ → Block → Op
    op_get op_touch : ℕ → Digest → Op
    op_prune : ℕ → Op
    op_clear : Op

  unfoldable pub apply : Op → Inner → Inner
  apply (op_insert now b) g = (insert cfg blake3 now b g).0
  apply (op_get now d) g = (get now d g).0
  apply (op_touch now d) g = touch now d g
  apply (op_prune now) g = prune cfg now g
  apply op_clear g = (clear g).0

  unfoldable pub apply_all : List Op → Inner → Inner
  apply_all [] g = g
  apply_all (o ∷ os) g = apply_all os (apply o g)

  apply-IsStore : (o : Op) (g : Inner) → IsStore g → IsStore (apply o g)
  unfolding apply
  apply-IsStore (op_insert now b) g h = insert-IsStore now b g h
  apply-IsStore (op_get now d) g h = (get-IsStore now d g h).0
  apply-IsStore (op_touch now d) g h = touch-IsStore now d g h
  apply-IsStore (op_prune now) g h = prune-IsStore now g h
  apply-IsStore op_clear g h = clear-IsStore g

  apply_all-IsStore : (os : List Op) (g : Inner) → IsStore g → IsStore (apply_all os g)
  unfolding apply_all
  apply_all-IsStore [] g h = h
  apply_all-IsStore (o ∷ os) g h = apply_all-IsStore os (apply o g) (apply-IsStore o g h)

  -- After any sequence of calls on a new store, every entry passes `verifies` for its digest (the
  -- hash of a byte block, the length of a program) and is within the size limit, and the byte count
  -- is the sum over the entries.
  pub apply_all-empty-IsStore : (os : List Op) → IsStore (apply_all os empty_inner)
  apply_all-empty-IsStore os = apply_all-IsStore os empty_inner IsStore-empty
