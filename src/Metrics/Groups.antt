-- ===== src/Metrics/Groups.antt =====
-- Grouping the turns loses none of them (`buckets` of crates/muka-gateway/src/metrics.rs).
use muka_ai_trim.Common.{
  ℕ, ◌+◌, ◌%◌, ◌≡◌, refl, ap, ◌∙◌, arith, List, [], ◌∷◌, length, u64_mod, Bool-cases, inl, inr,
  bytes_eq,
}
use muka_ai_trim.Metrics.{
  Turn, Bucket, empty_bucket, count_turn, at_key, group_turns, comes_first, insert_bucket,
  sort_buckets, buckets,
}

-- A number that the groups add up over their turns.
record IsCount (of_bucket : Bucket → ℕ) (of_turn : Turn → ℕ) : Type 0 where
  starts : (k : List ℕ) → of_bucket (empty_bucket k) ≡ 0
  adds : (t : Turn) (b : Bucket) → of_bucket (count_turn t b) ≡ (of_bucket b + of_turn t) % u64_mod

unfoldable pub sum_buckets : (Bucket → ℕ) → List Bucket → ℕ
sum_buckets f [] = 0
sum_buckets f (b ∷ bs) = f b + sum_buckets f bs

unfoldable pub sum_turns : (Turn → ℕ) → List Turn → ℕ
sum_turns f [] = 0
sum_turns f (t ∷ ts) = f t + sum_turns f ts

module _ (of_bucket : Bucket → ℕ) (of_turn : Turn → ℕ) (c : IsCount of_bucket of_turn) where
  at_key-sum :
      (k : List ℕ) (t : Turn) (bs : List Bucket)
      → sum_buckets of_bucket (at_key k t bs) % u64_mod
        ≡ (sum_buckets of_bucket bs + of_turn t) % u64_mod
  unfolding sum_buckets at_key
  at_key-sum k t [] = omega (arith, c.starts k, c.adds t (empty_bucket k))
  at_key-sum k t (b ∷ bs) = elim (Bool-cases (bytes_eq b.key k)) [
    | inl same ↦ rw same (omega (arith, c.adds t b))
    | inr other ↦ rw other (omega (arith, at_key-sum k t bs))
  ]

  group_turns-sum :
      (key : Turn → List ℕ) (ts : List Turn) (bs : List Bucket)
      → sum_buckets of_bucket (group_turns key ts bs) % u64_mod
        ≡ (sum_buckets of_bucket bs + sum_turns of_turn ts) % u64_mod
  unfolding group_turns sum_turns
  group_turns-sum key [] bs = omega arith
  group_turns-sum key (t ∷ ts) bs =
      omega (arith, group_turns-sum key ts (at_key (key t) t bs), at_key-sum (key t) t bs)

  insert_bucket-sum :
      (b : Bucket) (bs : List Bucket)
      → sum_buckets of_bucket (insert_bucket b bs) ≡ of_bucket b + sum_buckets of_bucket bs
  unfolding sum_buckets insert_bucket
  insert_bucket-sum b [] = refl
  insert_bucket-sum b (x ∷ bs) = elim (Bool-cases (comes_first b x)) [
    | inl first ↦ rw first refl
    | inr later ↦ rw later (omega (arith, insert_bucket-sum b bs))
  ]

  sort_buckets-sum :
      (bs : List Bucket) → sum_buckets of_bucket (sort_buckets bs) ≡ sum_buckets of_bucket bs
  unfolding sum_buckets sort_buckets
  sort_buckets-sum [] = refl
  sort_buckets-sum (b ∷ bs) =
      omega (arith, insert_bucket-sum b (sort_buckets bs), sort_buckets-sum bs)

  buckets-sum :
      (key : Turn → List ℕ) (ts : List Turn)
      → sum_buckets of_bucket (buckets key ts) % u64_mod ≡ sum_turns of_turn ts % u64_mod
  unfolding buckets sum_buckets
  buckets-sum key ts =
      omega (arith, sort_buckets-sum (group_turns key ts []), group_turns-sum key ts [])

sum_ones : (ts : List Turn) → sum_turns (λ t. 1) ts ≡ length ts
unfolding sum_turns
sum_ones [] = refl
sum_ones (t ∷ ts) = omega (arith, sum_ones ts)

-- However the turns are grouped, the groups together count every turn once, and their bodies, the
-- bytes on the link, references and hits add up to those of the turns, as numbers of 64 bits.
pub buckets_total :
    (key : Turn → List ℕ) (ts : List Turn)
    → (sum_buckets (λ b. b.requests) (buckets key ts) % u64_mod ≡ length ts % u64_mod)
      × (sum_buckets (λ b. b.body_bytes) (buckets key ts) % u64_mod
          ≡ sum_turns (λ t. t.body_bytes) ts % u64_mod)
      × (sum_buckets (λ b. b.wire_bytes) (buckets key ts) % u64_mod
          ≡ sum_turns (λ t. t.wire_bytes) ts % u64_mod)
      × (sum_buckets (λ b. b.refs) (buckets key ts) % u64_mod
          ≡ sum_turns (λ t. t.refs) ts % u64_mod)
      × (sum_buckets (λ b. b.refs_hit) (buckets key ts) % u64_mod
          ≡ sum_turns (λ t. t.refs_hit) ts % u64_mod)
unfolding count_turn
buckets_total key ts = (
  buckets-sum (λ b. b.requests) (λ t. 1) (record { starts = λ k. refl; adds = λ t b. refl }) key ts
      ∙ ap (λ (x : ℕ). x % u64_mod) (sum_ones ts),
  buckets-sum (λ b. b.body_bytes) (λ t. t.body_bytes)
      (record { starts = λ k. refl; adds = λ t b. refl }) key ts,
  buckets-sum (λ b. b.wire_bytes) (λ t. t.wire_bytes)
      (record { starts = λ k. refl; adds = λ t b. refl }) key ts,
  buckets-sum (λ b. b.refs) (λ t. t.refs) (record { starts = λ k. refl; adds = λ t b. refl }) key
      ts,
  buckets-sum (λ b. b.refs_hit) (λ t. t.refs_hit)
      (record { starts = λ k. refl; adds = λ t b. refl }) key ts,
)
