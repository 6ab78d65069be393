-- ===== src/Metrics/Log.antt =====
-- The log of turns holds the newest ones (`TurnLog` of crates/muka-gateway/src/metrics.rs).
use muka_ai_trim.Common.{
  ℕ, zero, suc, ◌+◌, ◌-◌, ◌≤◌, ◌≡◌, refl, sym, ap, ◌∙◌, arith, max, min, List, [], ◌∷◌, ◌++◌,
  append-nil, append_assoc, length, length-append, length-drop, drop, drop-drop, ltb, ltb→ge,
  ltb→lt, Bool-cases, inl, inr,
}
use muka_ai_trim.Metrics.{Turn, TurnLog, new_log, push, recent}

-- The turns pushed one after the other.
unfoldable pub push_all : List Turn → TurnLog → TurnLog
push_all [] l = l
push_all (t ∷ ts) l = push_all ts (push t l)

drop_nil : {A : Type 0} (n : ℕ) → drop {A = A} n [] ≡ []
drop_nil zero = refl
drop_nil (suc n) = refl

drop_short :
    {A : Type 0} (n : ℕ) (xs ys : List A) → n ≤ length xs → drop n (xs ++ ys) ≡ drop n xs ++ ys
drop_short zero xs ys h = refl
drop_short (suc n) [] ys h = absurd (omega arith)
drop_short (suc n) (x ∷ xs) ys h = drop_short n xs ys (omega arith)

push-newest :
    (history : List Turn) (l : TurnLog) (t : Turn)
    → l.turns ≡ drop (length history - l.cap) history
    → (push t l).turns ≡ drop (length (history ++ (t ∷ [])) - l.cap) (history ++ (t ∷ []))
unfolding push
push-newest history l t h =
    let kept = l.turns ++ (t ∷ []) in
    let n = length history - l.cap in
    let grown : kept ≡ drop n (history ++ (t ∷ [])) =
      ap (λ (x : List Turn). x ++ (t ∷ [])) h ∙ sym (drop_short n history (t ∷ []) (omega arith)) in
    let len : length kept ≡ length history + 1 - n =
      ap length grown ∙ length-drop n _ ∙ ap (λ (x : ℕ). x - n) (length-append history (t ∷ [])) in
    let whole : length (history ++ (t ∷ [])) ≡ length history + 1 = length-append history _ in
    elim (Bool-cases (ltb l.cap (length kept))) [
      | inl full ↦
          let f = ltb→lt _ _ full in
          let sum : n + (length kept - l.cap) ≡ length (history ++ (t ∷ [])) - l.cap =
            omega arith in
          rw full (
            ap (drop (length kept - l.cap)) grown
            ∙ drop-drop n (length kept - l.cap) (history ++ (t ∷ []))
            ∙ ap (λ (x : ℕ). drop x (history ++ (t ∷ []))) sum)
      | inr room ↦
          let r = ltb→ge _ _ room in
          let none_gone : n ≡ length (history ++ (t ∷ [])) - l.cap = omega arith in
          rw room (grown ∙ ap (λ (x : ℕ). drop x (history ++ (t ∷ []))) none_gone)
    ]

push-cap : (l : TurnLog) (t : Turn) → (push t l).cap ≡ l.cap
unfolding push
push-cap l t = ground arith

push_all-newest :
    (ts history : List Turn) (l : TurnLog)
    → l.turns ≡ drop (length history - l.cap) history
    → (push_all ts l).turns ≡ drop (length (history ++ ts) - l.cap) (history ++ ts)
unfolding push_all push
push_all-newest [] history l h = rw append-nil h
push_all-newest (t ∷ ts) history l h =
    let step = push-newest history l t h in
    rw (push-cap l t, append_assoc) at
      (push_all-newest ts (history ++ (t ∷ [])) (push t l) (rw (push-cap l t) step))

push_all-cap : (ts : List Turn) (l : TurnLog) → (push_all ts l).cap ≡ l.cap
unfolding push_all
push_all-cap [] l = refl
push_all-cap (t ∷ ts) l = push_all-cap ts (push t l) ∙ push-cap l t

-- The log is exactly the newest turns of the history, in order, as many as its capacity (one at
-- least) or all of them if they are fewer, and so never more than its capacity; and `recent`
-- answers the newest of these, as many as asked for.
pub recent-push_all :
    (ts : List Turn) (size n : ℕ)
    → ((push_all ts (new_log size)).turns ≡ drop (length ts - max size 1) ts)
      × (length (push_all ts (new_log size)).turns ≤ max size 1)
      × (recent n (push_all ts (new_log size)) ≡ drop (length ts - min n (max size 1)) ts)
unfolding new_log recent
recent-push_all ts size n =
    let l = push_all ts (new_log size) in
    let e : l.turns ≡ drop (length ts - max size 1) ts =
      push_all-newest ts [] (new_log size) (sym (drop_nil _)) in
    let len : length l.turns ≡ length ts - (length ts - max size 1) =
      ap length e ∙ length-drop _ ts in
    let sum : (length ts - max size 1) + (length l.turns - n) ≡ length ts - min n (max size 1) =
      omega arith in
    (
      e,
      omega arith,
      ap (drop (length l.turns - n)) e
          ∙ drop-drop (length ts - max size 1) (length l.turns - n) ts
          ∙ ap (λ (x : ℕ). drop x ts) sum,
    )
