-- ===== src/Resolve/Missing.antt =====
-- The result of `missing_blocks` (crates/muka-split/src/program.rs).
use muka_ai_trim.Common.{
  ℕ, zero, suc, ◌+◌, ◌≤◌, ◌<◌, ◌≡◌, refl, arith, Option, none, some, List, [], ◌∷◌, ◌++◌,
  append_assoc, length, length-append, Bool, true, false, ◌||◌, Bool-cases, inl, inr, All,
  All-append, bytes_eq_refl,
}
use muka_ai_trim.Digest.{Digest}
use muka_ai_trim.Program.{Instr, lit, ref, Block, BlockBody, bytes, program}
use muka_ai_trim.Resolve.{Source, refs_rev, contains, push_children, missing_loop, missing_blocks}

pub or-true_right : (a b : Bool) → b ≡ true → (a || b) ≡ true
or-true_right true b h = refl
or-true_right false b h = h

pub contains-append_left :
    (xs ys : List Digest) (d : Digest) → contains xs d ≡ true → contains (xs ++ ys) d ≡ true
unfolding contains
contains-append_left [] ys d h = cc
contains-append_left (x ∷ xs) ys d h = ground (arith, contains-append_left xs ys d)

pub contains-append_last : (xs : List Digest) (d : Digest) → contains (xs ++ (d ∷ [])) d ≡ true
unfolding contains
contains-append_last [] d = rw (bytes_eq_refl d)
contains-append_last (x ∷ xs) d = or-true_right _ _ (contains-append_last xs d)

refs_rev-append : (p : List Instr) (s : List Digest) → refs_rev p s ≡ refs_rev p [] ++ s
unfolding refs_rev
refs_rev-append [] s = refl
refs_rev-append (lit b ∷ p) s = refs_rev-append p s
refs_rev-append (ref d n ∷ p) s =
    rw (refs_rev-append p (d ∷ s), refs_rev-append p (d ∷ []), append_assoc)

push_children-append :
    (o : Option Block) (s : List Digest) → push_children o s ≡ push_children o [] ++ s
unfolding push_children
push_children-append none s = refl
push_children-append (some b) s = cases b.body
  where
    cases :
        (body : BlockBody)
        → (elim body [ bytes x ↦ s | program p ↦ refs_rev p s ])
          ≡ (elim body [ bytes x ↦ [] | program p ↦ refs_rev p [] ]) ++ s
    cases (bytes x) = refl
    cases (program p) = refs_rev-append p s

All-left {ℓ κ} :
    {A : Type ℓ} (Q : A → Type κ) (front back : List A) → All Q (front ++ back) → All Q front
All-left Q [] back h = tt
All-left Q (x ∷ front) back (h, hs) = (h, All-left Q front back hs)

All-right {ℓ κ} :
    {A : Type ℓ} (Q : A → Type κ) (front back : List A) → All Q (front ++ back) → All Q back
All-right Q [] back h = h
All-right Q (x ∷ front) back (h, hs) = All-right Q front back hs

module _ (store : Source) (peer : Digest → Bool) where
  -- The peer has the digest, or it is on the list.
  abbrev pub IsCovered : List Digest → Digest → Type 0
  IsCovered res d = (contains res d || peer d) ≡ true

  -- Every digest that the local block of `d` refers to is covered.
  abbrev pub HasChildren : List Digest → Digest → Type 0
  HasChildren res d = All (IsCovered res) (push_children (store d) [])

  known_step :
      (budget : ℕ) (xs : List Digest) (d : Digest) (stack : List Digest)
      → (contains xs d || peer d) ≡ true
      → missing_loop store peer budget xs xs (d ∷ stack)
        ≡ missing_loop store peer budget xs xs stack
  unfolding missing_loop
  known_step zero xs d stack h = rw (h, missing_loop)
  known_step (suc budget) xs d stack h = rw (h, missing_loop)

  new_step :
      (budget : ℕ) (xs : List Digest) (d : Digest) (stack : List Digest)
      → (contains xs d || peer d) ≡ false
      → missing_loop store peer (suc budget) xs xs (d ∷ stack)
        ≡ missing_loop store peer budget
            (xs ++ (d ∷ []))
            (xs ++ (d ∷ []))
            (push_children (store d) stack)
  unfolding missing_loop
  new_step budget xs d stack h = rw (h, missing_loop)

  full_step :
      (xs : List Digest) (d : Digest) (stack : List Digest)
      → (contains xs d || peer d) ≡ false
      → missing_loop store peer zero xs xs (d ∷ stack) ≡ xs
  unfolding missing_loop
  full_step xs d stack h = rw (h, missing_loop)

  -- A property of the loop's lists and result that each kind of round keeps.
  module _ {ℓ} (P : ℕ → List Digest → List Digest → List Digest → Type ℓ)
      (done : (budget : ℕ) (xs : List Digest) → P budget xs [] xs)
      (known : (budget : ℕ) (xs : List Digest) (d : Digest) (stack res : List Digest)
        → (contains xs d || peer d) ≡ true
        → P budget xs stack res
        → P budget xs (d ∷ stack) res)
      (full : (xs : List Digest) (d : Digest) (stack : List Digest) → P zero xs (d ∷ stack) xs)
      (new : (budget : ℕ) (xs : List Digest) (d : Digest) (stack res : List Digest)
        → (contains xs d || peer d) ≡ false
        → P budget (xs ++ (d ∷ [])) (push_children (store d) stack) res
        → P (suc budget) xs (d ∷ stack) res) where
    missing_loop_induction :
        (budget : ℕ) (xs stack : List Digest)
        → P budget xs stack (missing_loop store peer budget xs xs stack)
    missing_loop_induction budget xs [] = unfold missing_loop in done budget xs
    missing_loop_induction zero xs (d ∷ stack) = elim (Bool-cases (contains xs d || peer d)) [
      | inl h ↦
          rw (known_step zero xs d stack h)
            (known zero xs d stack _ h (missing_loop_induction zero xs stack))
      | inr h ↦ rw (full_step xs d stack h) (full xs d stack)
    ]
    missing_loop_induction (suc budget) xs (d ∷ stack) =
        elim (Bool-cases (contains xs d || peer d)) [
          | inl h ↦
              rw (known_step (suc budget) xs d stack h)
                (known (suc budget) xs d stack _ h (missing_loop_induction (suc budget) xs stack))
          | inr h ↦ rw (new_step budget xs d stack h) (
              new budget xs d stack _ h
                (missing_loop_induction budget (xs ++ (d ∷ [])) (push_children (store d) stack)))
        ]

  IsCovered-Kept :
      (xs res : List Digest) (d : Digest)
      → ((e : Digest) → contains xs e ≡ true → contains res e ≡ true)
      → (contains xs d || peer d) ≡ true
      → IsCovered res d
  IsCovered-Kept xs res d kept h = elim (Bool-cases (contains xs d)) [
    | inl m ↦ rw (kept d m)
    | inr m ↦ or-true_right (contains res d) (peer d) (rw m at h)
  ]

  -- The list keeps what it had and grows within the budget. With room left on it, the stack is
  -- covered, and so are the children of all on it if they were before.
  record Progress (budget : ℕ) (xs stack res : List Digest) : Type 0 where
    kept : (e : Digest) → contains xs e ≡ true → contains res e ≡ true
    bounded : length res ≤ length xs + budget
    absent : All (λ e. peer e ≡ false) xs → All (λ e. peer e ≡ false) res
    covers : length res < length xs + budget → All (IsCovered res) stack
    closed : length res < length xs + budget → All (HasChildren res) xs → All (HasChildren res) res

  length-snoc :
      (xs : List Digest) (d : Digest) (budget : ℕ)
      → length (xs ++ (d ∷ [])) + budget ≡ length xs + suc budget
  length-snoc xs d budget = omega (arith, length-append xs (d ∷ []))

  Progress-new :
      (budget : ℕ) (xs : List Digest) (d : Digest) (stack res : List Digest)
      → (contains xs d || peer d) ≡ false
      → Progress budget (xs ++ (d ∷ [])) (push_children (store d) stack) res
      → Progress (suc budget) xs (d ∷ stack) res
  Progress-new budget xs d stack res h p = record {
    kept = λ e m. p.kept e (contains-append_left xs (d ∷ []) e m);
    bounded = rw (← length-snoc xs d budget) p.bounded;
    absent = λ hx. p.absent (All-append (λ e. peer e ≡ false) xs (d ∷ []) hx (ground arith, tt));
    covers = λ room. (
      rw (p.kept d (contains-append_last xs d)),
      All-right (IsCovered res) (push_children (store d) []) stack (both room),
    );
    closed = λ room hx. p.closed (rw length-snoc room) (
        All-append (HasChildren res) xs (d ∷ []) hx
          (All-left (IsCovered res) (push_children (store d) []) stack (both room), tt));
  }
    where
      both :
          length res < length xs + suc budget
          → All (IsCovered res) (push_children (store d) [] ++ stack)
      both room = rw (← push_children-append (store d) stack) (p.covers (rw length-snoc room))

  missing_loop-Progress :
      (budget : ℕ) (xs stack : List Digest)
      → Progress budget xs stack (missing_loop store peer budget xs xs stack)
  missing_loop-Progress =
      missing_loop_induction Progress
        (λ budget xs. record {
          kept = λ e m. m;
          bounded = omega arith;
          absent = λ h. h;
          covers = λ room. tt;
          closed = λ room h. h;
        })
        (λ budget xs d stack res h p. record {
          kept = p.kept;
          bounded = p.bounded;
          absent = p.absent;
          covers = λ room. (IsCovered-Kept xs res d p.kept h, p.covers room);
          closed = p.closed;
        })
        (λ xs d stack. record {
          kept = λ e m. m;
          bounded = omega arith;
          absent = λ h. h;
          covers = λ room. absurd (omega arith);
          closed = λ room h. h;
        })
        Progress-new

  -- `missing_blocks` reports at most `limit` digests, and none that the peer has.
  pub missing_blocks_bounds :
      (instrs : List Instr) (limit : ℕ)
      → (length (missing_blocks store peer instrs limit) ≤ limit)
        × All (λ d. peer d ≡ false) (missing_blocks store peer instrs limit)
  unfolding missing_blocks
  missing_blocks_bounds instrs limit =
      let p = missing_loop-Progress limit [] (refs_rev instrs []) in
      (omega (arith, p.bounded), p.absent tt)

  -- A list that `missing_blocks` returns below its limit is complete: every digest that the
  -- program refers to is on the list or at the peer, and so is every digest that the local block
  -- of a listed digest refers to.
  pub missing_blocks_closed :
      (instrs : List Instr) (limit : ℕ)
      → length (missing_blocks store peer instrs limit) < limit
      → All (IsCovered (missing_blocks store peer instrs limit)) (refs_rev instrs [])
        × All
            (HasChildren (missing_blocks store peer instrs limit))
            (missing_blocks store peer instrs limit)
  unfolding missing_blocks
  missing_blocks_closed instrs limit room =
      let p = missing_loop-Progress limit [] (refs_rev instrs []) in
      (p.covers (omega arith), p.closed (omega arith) tt)
