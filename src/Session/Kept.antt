-- ===== src/Session/Kept.antt =====
-- The peer's store behind the pushed blocks of a request: `keep` of `remote_end` in
-- crates/muka-gateway/src/session.rs over `insert` and `touch` of crates/muka-store/src/lib.rs.
use muka_ai_trim.Common.{
  ℕ, suc, ◌+◌, ◌%◌, ◌≤◌, ◌<◌, ◌^◌, ◌≡◌, ◌≢◌, ◌⊎◌, inl, inr, refl, sym, ◌∙◌, subst, arith, true,
  false, some, List, [], ◌∷◌, length, ltb, ge→ltb, if◌then◌else◌, if-holds, All, bytes_eq,
  bytes_eq_iff, Bool-cases,
}
use muka_ai_trim.Digest.{Digest}
use muka_ai_trim.Program.{Block}
use muka_ai_trim.Program.Meaning.{body_bytes}
use muka_ai_trim.Resolve.Sound.{IsFaithful}
use muka_ai_trim.Session.{source}
use muka_ai_trim.Splitter.Blocks.{IsTrue}
use muka_ai_trim.Splitter.Distinct.{IsDistinct}
use muka_ai_trim.Store.{Config, Inner, has, touch, settle, verifies, add_entry, insert, inc}
use muka_ai_trim.Session.Lookups.{
  Extends, length-refresh, source-has, has-eq, source-touch, source-add_entry_same,
  source-add_entry_other,
}

module _ (cfg : Config) (blake3 : List ℕ → List ℕ) (now : ℕ) where
  abbrev pub sum_len : List Block → ℕ
  sum_len [] = 0
  sum_len (b ∷ bs) = b.len + sum_len bs

  -- The store takes the blocks without evicting anything.
  pub record HasRoom (g : Inner) (bs : List Block) : Type 0 where
    pub bytes_fit : g.total + sum_len bs ≤ cfg.max_bytes
    pub count_fit : length g.map + length bs ≤ cfg.max_blocks
    pub each_fits : All (λ b. b.len ≤ cfg.max_block_bytes) bs

  insert-room :
      (b : Block) (g : Inner) (bs : List Block)
      → cfg.max_bytes < 2 ^ 64
      → HasRoom g (b ∷ bs)
      → verifies cfg blake3 b.body b.kind b.digest b.len ≡ true
      → has g b.digest ≡ false
      → (insert cfg blake3 now b g).0 ≡ add_entry cfg blake3 now b g
  unfolding insert settle add_entry
  insert-room b g bs small r good absent =
      let one : ltb cfg.max_block_bytes b.len ≡ false = ge→ltb _ _ r.each_fits.0 in
      let total : ltb cfg.max_bytes ((g.total + b.len) % 2 ^ 64) ≡ false =
        ge→ltb _ _ (omega (arith, r.bytes_fit, small)) in
      let count : ltb cfg.max_blocks (suc (length g.map)) ≡ false =
        ge→ltb _ _ (omega (arith, r.count_fit)) in
      rw (good, one, absent, total, count) refl

  -- `keep_block` on the store.
  abbrev pub keep_one : Block → Inner → Inner
  keep_one b g = if has g b.digest then touch now b.digest g else (insert cfg blake3 now b g).0

  abbrev pub keep_all : List Block → Inner → Inner
  keep_all [] g = g
  keep_all (b ∷ bs) g = keep_all bs (keep_one b g)

  module _ (content : Digest → List ℕ) (small : cfg.max_bytes < 2 ^ 64) where
    -- What keeping a block does to the store.
    record IsKept (g g' : Inner) (b : Block) (bs : List Block) : Type 0 where
      extends : Extends (source g) (source g')
      faithful : IsFaithful content (source g')
      room : HasRoom g' bs
      there : (source g' b.digest ≡ some b) ⊎ (has g b.digest ≡ true)
      only : (d : Digest) → b.digest ≢ d → has g' d ≡ true → has g d ≡ true

    touch-room :
        (k : Digest) (b : Block) (g : Inner) (bs : List Block)
        → HasRoom g (b ∷ bs)
        → HasRoom (touch now k g) bs
    unfolding touch
    touch-room k b g bs r =
        if-holds (λ h. HasRoom h bs) (has g k)
          (record {
            bytes_fit = omega (arith, r.bytes_fit);
            count_fit = omega (arith, r.count_fit, length-refresh g.map k (inc g.seq) now);
            each_fits = r.each_fits.1;
          })
          (record {
            bytes_fit = omega (arith, r.bytes_fit);
            count_fit = omega (arith, r.count_fit);
            each_fits = r.each_fits.1;
          })

    add_entry-room :
        (b : Block) (g : Inner) (bs : List Block)
        → HasRoom g (b ∷ bs)
        → HasRoom (add_entry cfg blake3 now b g) bs
    unfolding add_entry
    add_entry-room b g bs r = record {
      bytes_fit = omega (arith, r.bytes_fit, small);
      count_fit = omega (arith, r.count_fit);
      each_fits = r.each_fits.1;
    }

    touch-IsKept :
        (b : Block) (g : Inner) (bs : List Block)
        → IsFaithful content (source g)
        → HasRoom g (b ∷ bs)
        → has g b.digest ≡ true
        → IsKept g (touch now b.digest g) b bs
    touch-IsKept b g bs f r old = record {
      extends = λ d x e. source-touch now b.digest g d ∙ e;
      faithful = record {
        agrees = λ d x e. f.agrees d x (sym (source-touch now b.digest g d) ∙ e);
      };
      room = touch-room b.digest b g bs r;
      there = inr old;
      only = λ d n h. has-eq g (touch now b.digest g) d (source-touch now b.digest g d) h;
    }

    add_entry-IsKept :
        (b : Block) (g : Inner) (bs : List Block)
        → IsFaithful content (source g)
        → IsTrue content b
        → HasRoom g (b ∷ bs)
        → has g b.digest ≡ false
        → IsKept g (add_entry cfg blake3 now b g) b bs
    add_entry-IsKept b g bs f t r absent = record {
      extends = λ d x e. extended d x e (Bool-cases (bytes_eq b.digest d));
      faithful = record { agrees = λ d x e. agreed d x e (Bool-cases (bytes_eq b.digest d)) };
      room = add_entry-room b g bs r;
      there = inl (source-add_entry_same cfg blake3 now b g);
      only = λ d n h. has-eq g g' d (source-add_entry_other cfg blake3 now b g d n) h;
    }
      where
        g' : Inner
        g' = add_entry cfg blake3 now b g

        differs : (d : Digest) → bytes_eq b.digest d ≡ false → b.digest ≢ d
        differs d e s = let same : bytes_eq b.digest d ≡ true = (bytes_eq_iff b.digest d).1 s in cc

        extended :
            (d : Digest) (x : Block)
            → source g d ≡ some x
            → (bytes_eq b.digest d ≡ true) ⊎ (bytes_eq b.digest d ≡ false)
            → source g' d ≡ some x
        extended d x e (inr other) =
            source-add_entry_other cfg blake3 now b g d (differs d other) ∙ e
        extended d x e (inl same) =
            let there : has g b.digest ≡ true =
              subst (λ k. has g k ≡ true) (sym ((bytes_eq_iff b.digest d).0 same))
                (source-has g d x e) in
            cc

        agreed :
            (d : Digest) (x : Block)
            → source g' d ≡ some x
            → (bytes_eq b.digest d ≡ true) ⊎ (bytes_eq b.digest d ≡ false)
            → body_bytes content x.body ≡ content d
        agreed d x e (inr other) =
            f.agrees d x (sym (source-add_entry_other cfg blake3 now b g d (differs d other)) ∙ e)
        agreed d x e (inl same) =
            let at_b : source g' b.digest ≡ some x =
              subst (λ k. source g' k ≡ some x) (sym ((bytes_eq_iff b.digest d).0 same)) e in
            let it : some b ≡ some x = sym (source-add_entry_same cfg blake3 now b g) ∙ at_b in
            let it' : b ≡ x = cc in
            subst (λ k. body_bytes content x.body ≡ content k) ((bytes_eq_iff b.digest d).0 same)
              (subst (λ (y : Block). body_bytes content y.body ≡ content b.digest) it' t.stands)

    keep_one-IsKept :
        (b : Block) (g : Inner) (bs : List Block)
        → IsFaithful content (source g)
        → IsTrue content b
        → HasRoom g (b ∷ bs)
        → verifies cfg blake3 b.body b.kind b.digest b.len ≡ true
        → IsKept g (keep_one b g) b bs
    keep_one-IsKept b g bs f t r good = elim (Bool-cases (has g b.digest)) [
      | inl old ↦ rw old (touch-IsKept b g bs f r old)
      | inr new ↦ rw (new, insert-room b g bs small r good new) (add_entry-IsKept b g bs f t r new)
    ]

    -- What keeping a row of blocks does to the store.
    pub record AreKept (g g' : Inner) (bs : List Block) : Type 0 where
      pub extends : Extends (source g) (source g')
      pub faithful : IsFaithful content (source g')
      pub there : All (λ b. (source g' b.digest ≡ some b) ⊎ (has g b.digest ≡ true)) bs

    pub keep_all-AreKept :
        (bs : List Block) (g : Inner)
        → IsFaithful content (source g)
        → All (IsTrue content) bs
        → All (λ b. verifies cfg blake3 b.body b.kind b.digest b.len ≡ true) bs
        → IsDistinct bs
        → HasRoom g bs
        → AreKept g (keep_all bs g) bs
    keep_all-AreKept [] g f t v n r = record { extends = λ d x e. e; faithful = f; there = tt }
    keep_all-AreKept (b ∷ bs) g f (t, ts) (v, vs) (n, ns) r =
        let g₁ : Inner = keep_one b g in
        let k : IsKept g g₁ b bs = keep_one-IsKept b g bs f t r v in
        let more : AreKept g₁ (keep_all bs g₁) bs =
          keep_all-AreKept bs g₁ k.faithful ts vs ns k.room in
        record {
          extends = λ d x e. more.extends d x (k.extends d x e);
          faithful = more.faithful;
          there = (
            elim k.there [ inl e ↦ inl (more.extends b.digest b e) | inr h ↦ inr h ],
            earlier (keep_all bs g₁) g₁ bs n k.only more.there,
          );
        }
      where
        earlier :
            (g' g₁ : Inner) (bs : List Block)
            → All (λ (x : Block). b.digest ≢ x.digest) bs
            → ((d : Digest) → b.digest ≢ d → has g₁ d ≡ true → has g d ≡ true)
            → All (λ (x : Block). (source g' x.digest ≡ some x) ⊎ (has g₁ x.digest ≡ true)) bs
            → All (λ (x : Block). (source g' x.digest ≡ some x) ⊎ (has g x.digest ≡ true)) bs
        earlier g' g₁ [] n only h = tt
        earlier g' g₁ (x ∷ bs) (n, ns) only (inl e, hs) = (inl e, earlier g' g₁ bs ns only hs)
        earlier g' g₁ (x ∷ bs) (n, ns) only (inr h, hs) =
            (inr (only x.digest n h), earlier g' g₁ bs ns only hs)
