-- ===== src/Store/Entries.antt =====
-- Lemmas on the entry list of the store.
use muka_ai_trim.Common.{
  ℕ, ◌≡◌, refl, arith, some, List, [], ◌∷◌, Bool-cases, inl, inr, bytes_eq, bytes_eq_iff,
}
use muka_ai_trim.Digest.{Digest}
use muka_ai_trim.Resolve.{contains}
use muka_ai_trim.Store.{Entry, Entries, find_entry, refresh, total_of, without}

-- A property of entries that does not look at their recency.
module _ (P : Digest → Entry → Type 0)
    (ageless : (d : Digest) (e : Entry) (seq at : ℕ)
      → P d e
      → P d (record e { seq = seq; at = at })) where
  abbrev pub Each : Entries → Type 0
  Each [] = Unit
  Each ((k, e) ∷ m) = P k e × Each m

  pub Each-refresh : (m : Entries) (d : Digest) (seq at : ℕ) → Each m → Each (refresh m d seq at)
  unfolding refresh
  Each-refresh [] d seq at h = tt
  Each-refresh ((k, e) ∷ m) d seq at (h, hs) = elim (Bool-cases (bytes_eq k d)) [
    | inl same ↦ rw same (ageless k e seq at h, hs)
    | inr other ↦ rw other (h, Each-refresh m d seq at hs)
  ]

  pub Each-without : (vs : List Digest) (m : Entries) → Each m → Each (without vs m)
  unfolding without
  Each-without vs [] h = tt
  Each-without vs ((k, e) ∷ m) (h, hs) = elim (Bool-cases (contains vs k)) [
    | inl gone ↦ rw gone (Each-without vs m hs)
    | inr stays ↦ rw stays (h, Each-without vs m hs)
  ]

  pub Each-find_entry :
      (m : Entries) (d : Digest) (e : Entry) → Each m → find_entry m d ≡ some e → P d e
  unfolding find_entry
  Each-find_entry [] d e h q = cc
  Each-find_entry ((k, x) ∷ m) d e (h, hs) q = elim (Bool-cases (bytes_eq k d)) [
    | inl same ↦
        let key : k ≡ d = (bytes_eq_iff k d).0 same in
        let entry : some x ≡ some e = rw same at q in
        let entry' : x ≡ e = cc in rw (← key, ← entry') h
    | inr other ↦ Each-find_entry m d e hs (rw other at q)
  ]

pub total_of-refresh :
    (m : Entries) (d : Digest) (seq at : ℕ) → total_of (refresh m d seq at) ≡ total_of m
unfolding total_of refresh
total_of-refresh [] d seq at = refl
total_of-refresh ((k, e) ∷ m) d seq at = ground (arith, total_of-refresh m d seq at)
