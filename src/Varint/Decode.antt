-- ===== src/Varint/Decode.antt =====
-- `uvarint` on any input, well formed or not.
use muka_ai_trim.Common.{
  ℕ, zero, suc, ◌+◌, ◌*◌, ◌%◌, ◌^◌, ◌≤◌, ◌<◌, ◌≡◌, arith, List, ◌∷◌, length, get_elem?,
  get_elem?-lt, ok, >>=-eq-ok, Option, some, none, IsU64, [], ◌++◌, All, subst, ap, drop-append,
  length-append, get_elem?-drop,
}
use muka_ai_trim.Varint.{Reader, CodecError, advance, ok_or, add_group, uvarint_loop, uvarint}
use muka_ai_trim.Varint.Reading.{Reads}
use muka_ai_trim.Varint.RoundTrip.{Reads-inner, shift_seven}

add_group_fits : (i out b v : ℕ) → add_group i out b ≡ ok v → IsU64 v
unfolding add_group
add_group_fits i out b v h = ground arith

ok_or-some : {A : Type 0} (o : Option A) (e : CodecError) (a : A) → ok_or o e ≡ ok a → o ≡ some a
ok_or-some none e a h = cc
ok_or-some (some b) e a h = cc

-- A reader that has moved on by `lo` to `hi` bytes of the same buffer.
pub record Moved (r r' : Reader) (lo hi : ℕ) : Type 0 where
  pub same_buf : r'.buf ≡ r.buf
  pub at_least : r.pos + lo ≤ r'.pos
  pub at_most : r'.pos ≤ r.pos + hi
  pub inside : r'.pos ≤ length r.buf

uvarint_loop_takes :
    (k i out : ℕ) (r : Reader) (v : ℕ) (r' : Reader)
    → uvarint_loop k i out r ≡ ok (v, r')
    → IsU64 v × Moved r r' 1 k
unfolding uvarint_loop
uvarint_loop_takes zero i out r v r' h = cc
uvarint_loop_takes (suc k) i out r v r' h =
    let (b, hb, h₁) = >>=-eq-ok (ok_or (get_elem? r.buf r.pos) _) _ h in
    let (out', ho, h₂) = >>=-eq-ok (add_group i out b) _ h₁ in
    ground (
      arith,
      h₂,
      get_elem?-lt r.buf r.pos b (ok_or-some _ _ b hb),
      add_group_fits i out b out' ho,
      uvarint_loop_takes k (i + 1) out' (advance r 1) v r',
    )

-- A successful `uvarint` returns a `u64`, takes one to ten bytes and stays inside the buffer.
uvarint_takes :
    (r : Reader) (v : ℕ) (r' : Reader) → uvarint r ≡ ok (v, r') → IsU64 v × Moved r r' 1 10
unfolding uvarint
uvarint_takes r v r' h = uvarint_loop_takes 10 0 0 r v r' h

-- A byte with the top bit set, behind which the number goes on.
abbrev pub IsContinuing : ℕ → Type 0
IsContinuing b = (128 ≤ b) × (b < 256)

-- What the low seven bits of the bytes stand for, the first byte's lowest.
unfoldable pub groups : List ℕ → ℕ
groups [] = 0
groups (b ∷ bs) = b % 128 + 128 * groups bs

groups_bound : (bs : List ℕ) → groups bs < 128 ^ length bs
unfolding groups
groups_bound [] = omega arith
groups_bound (b ∷ bs) =
    let more : b % 128 + 128 * groups bs < 128 ^ suc (length bs) = omega (arith, groups_bound bs) in
    more

inner_bytes :
    (bs tail : List ℕ) (k i out v : ℕ)
    → All IsContinuing bs
    → i + length bs ≤ 9
    → IsU64 (out + groups bs * 2 ^ (7 * i))
    → Reads (uvarint_loop k (i + length bs) (out + groups bs * 2 ^ (7 * i))) tail v
    → Reads (uvarint_loop (length bs + k) i out) (bs ++ tail) v
unfolding groups
inner_bytes [] tail k i out v hs hi fits h =
    let at_i : i + 0 ≡ i = omega arith in
    let at_out : out + 0 * 2 ^ (7 * i) ≡ out = omega arith in
    let at_k : k ≡ 0 + k = omega arith in
    subst (λ n. Reads (uvarint_loop n i out) tail v) at_k
      (subst (λ j. Reads (uvarint_loop k j out) tail v) at_i
        (subst (λ o. Reads (uvarint_loop k (i + 0) o) tail v) at_out h))
inner_bytes (b ∷ bs) tail k i out v ((low, high), hs) hi fits h =
    let g : ℕ = b % 128 in
    let out' : ℕ = out + g * 2 ^ (7 * i) in
    let shift : groups bs * 2 ^ (7 * (i + 1)) ≡ groups bs * (128 * 2 ^ (7 * i)) =
      ap (λ (t : ℕ). groups bs * t) (shift_seven i) in
    let whole : out + (g + 128 * groups bs) * 2 ^ (7 * i) ≡ out' + groups bs * 2 ^ (7 * (i + 1)) =
      omega (arith, shift) in
    let fits' : IsU64 (out' + groups bs * 2 ^ (7 * (i + 1))) = omega (arith, fits, whole) in
    let round : i + suc (length bs) ≡ (i + 1) + length bs = omega arith in
    let top : g + 128 ≡ b = omega arith in
    let rest = inner_bytes bs tail k (i + 1) out' v hs (omega arith) fits' (
      subst (λ j. Reads (uvarint_loop k j (out' + groups bs * 2 ^ (7 * (i + 1)))) tail v) round
        (subst (λ o. Reads (uvarint_loop k (i + suc (length bs)) o) tail v) whole h)) in
    let rounds : suc (length bs + k) ≡ suc (length bs) + k = omega arith in
    subst (λ n. Reads (uvarint_loop n i out) (b ∷ (bs ++ tail)) v) rounds
      (subst (λ c. Reads (uvarint_loop (suc (length bs + k)) i out) (c ∷ (bs ++ tail)) v) top
        (Reads-inner (length bs + k) i out g (bs ++ tail) v (omega arith) (omega arith)
          (omega (arith, fits')) rest))

tenth_byte :
    (out w : ℕ)
    → out < 2 ^ 63
    → w < 128
    → Reads (uvarint_loop 1 9 out) (w ∷ []) (out + w % 2 * 2 ^ 63)
unfolding uvarint_loop add_group
tenth_byte out w small h = record {
  run = λ r ys e. rw (get_elem?-drop r.buf r.pos w ys e) (ground arith);
}

-- Of a number of ten bytes, wherever it stands, `uvarint` takes the seven low bits of each of the
-- first nine, and of the tenth byte only the lowest bit, as bit 63: the other six may hold anything
-- and are dropped without an error.
pub uvarint-ten_bytes :
    (before bs rest : List ℕ) (w : ℕ)
    → All IsContinuing bs
    → length bs ≡ 9
    → w < 128
    → uvarint (record { buf = before ++ ((bs ++ (w ∷ [])) ++ rest); pos = length before })
      ≡ ok (
        groups bs + w % 2 * 2 ^ 63,
        record { buf = before ++ ((bs ++ (w ∷ [])) ++ rest); pos = length before + 10 },
      )
unfolding uvarint
uvarint-ten_bytes before bs rest w hs nine small =
    let bound : groups bs < 2 ^ 63 = omega (arith, rw nine at (groups_bound bs)) in
    let whole : 0 + groups bs * 2 ^ (7 * 0) ≡ groups bs = omega arith in
    let last : Reads (uvarint_loop 1 (0 + length bs) (0 + groups bs * 2 ^ (7 * 0))) (w ∷ [])
        (groups bs + w % 2 * 2 ^ 63) =
      rw (nine, whole) (tenth_byte (groups bs) w bound small) in
    let loop =
      inner_bytes bs (w ∷ []) 1 0 0 (groups bs + w % 2 * 2 ^ 63) hs (omega arith) (omega arith)
        last in
    let ten : length (bs ++ (w ∷ [])) ≡ 10 = omega (arith, length-append bs (w ∷ [])) in
    let rounds : length bs + 1 ≡ 10 = omega (arith, nine) in
    rw (rounds, ten) at
      (loop.run (record { buf = before ++ ((bs ++ (w ∷ [])) ++ rest); pos = length before }) rest
        (drop-append before ((bs ++ (w ∷ [])) ++ rest)))
