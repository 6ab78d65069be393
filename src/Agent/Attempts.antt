-- ===== src/Agent/Attempts.antt =====
-- How often `drive` of crates/muka-gateway/src/local.rs sends a request, and when it may repeat it.
use muka_ai_trim.Common.{
  ℕ, ◌≤◌, ◌≡◌, ◌≢◌, refl, ap, arith, Bool, true, false, not, ◌&&◌, Option, none, some, List, [],
  ◌∷◌, length, Result, ok, err, All, Bool-cases, inl, inr,
}
use muka_ai_trim.Agent.{
  Attempt, Agent, Driven, take_conn, on_taken, retryable, attempted, after_outcome, count_failure,
  drive_loop, attempts_of, drive, record_end,
}
use muka_ai_trim.Config.{LocalConfig}
use muka_ai_trim.Metrics.{TurnLog}
use muka_ai_trim.Message.{RequestHead}
use muka_ai_trim.Session.{SessionError, fallback_to_whole}
use muka_ai_trim.Session.Local.{Payload, whole, is_split, Conn, ResponseEnd, Wire}
use muka_ai_trim.Session.Reply.{Relayed, Reply, local_end}
use Prim.Native.String.{String}
use muka_ai_trim.Agent.Quiet.{IsSilent, local_end-quiet}

and_false : (b : Bool) → (b && false) ≡ false
and_false true = refl
and_false false = refl

abbrev pub InOrder : List ℕ → Payload → List (Payload × List Relayed) → Type 0
InOrder body payload [] = Unit
InOrder body payload (x ∷ []) = x.0 ≡ payload
InOrder body payload (x ∷ y ∷ xs) =
    (x.0 ≡ payload) × (is_split payload ≡ true) × All IsSilent x.1 × (y.0 ≡ whole body)

module _ (w : Wire) (profile : LocalConfig) (head : RequestHead) (body : List ℕ) (now : ℕ) where
  -- The end of a request that sends the body whole, if it sends anything more.
  record IsLast (d : Driven) : Type 0 where
    ended : d.outcome ≢ none
    once : length d.attempts ≤ 1
    whole_body : All (λ (x : Payload × List Relayed). x.0 ≡ whole body) d.attempts

  retry_once :
      (e : SessionError) (p : Payload) (sent : Bool)
      → retryable w profile head body now e 2 p sent ≡ false
  unfolding retryable
  retry_once e p sent = and_false _

  after_outcome-IsLast :
      (a : Agent) (p : Payload) (skip : Option String) (pool : List Conn) (r : Reply)
      (again : Agent → Driven) (o : Option (Result SessionError ResponseEnd))
      → o ≢ none
      → ((after_outcome w profile head body now 2 a p skip pool r again o).attempts ≡ [])
        × ((after_outcome w profile head body now 2 a p skip pool r again o).outcome ≢ none)
  unfolding after_outcome
  after_outcome-IsLast a p skip pool r again none total = absurd (total refl)
  after_outcome-IsLast a p skip pool r again (some (ok e)) total = (refl, λ n. cc)
  after_outcome-IsLast a p skip pool r again (some (err e)) total =
      let stop = retry_once e p r.state.head_sent in rw stop (refl, λ n. cc)

  on_taken-IsLast :
      (a : Agent) (skip : Option String) (pool : List Conn) (met : Attempt) (again : Agent → Driven)
      (t : Result SessionError Conn)
      → IsLast (on_taken w profile head body now 2 a (whole body) skip pool met again t)
  unfolding on_taken
  on_taken-IsLast a skip pool met again (err e) = record {
    ended = λ n. cc;
    once = omega arith;
    whole_body = tt;
  }
  on_taken-IsLast a skip pool met again (ok conn) =
      let r : Reply =
        local_end w head (whole body) now conn a.link a.head_sent met.arrivals met.upload_fails in
      let (_, total) =
        local_end-quiet w head (whole body) now conn a.link a.head_sent met.arrivals
          met.upload_fails in
      let (no_more, ended) = after_outcome-IsLast a (whole body) skip pool r again r.ended total in
      record {
        ended = ended;
        once = omega (arith, ap length no_more);
        whole_body = (refl, rw no_more tt);
      }

  second-IsLast :
      (env : ℕ → Attempt) (a : Agent) (skip : Option String)
      → IsLast (drive_loop w profile head body now 1 2 env a (whole body) skip)
  unfolding drive_loop
  second-IsLast env a skip = on_taken-IsLast a skip _ _ _ (take_conn (env 2).dialled a.pool).0

  -- The attempts of a request: the payload as prepared, and then the body whole at most once, only
  -- where the first attempt was a split and gave the agent no response head.
  pub record IsOrderly (payload : Payload) (d : Driven) : Type 0 where
    pub ended : d.outcome ≢ none
    pub at_most_two : length d.attempts ≤ 2
    pub in_order : InOrder body payload d.attempts

  retries_why :
      (e : SessionError) (p : Payload) (sent : Bool)
      → retryable w profile head body now e 1 p sent ≡ true
      → (is_split p ≡ true) × (sent ≡ false)
  unfolding retryable
  retries_why e p sent h = at_tests (fallback_to_whole e) (is_split p) sent h
    where
      at_tests : (f s t : Bool) → (f && (true && (s && not t))) ≡ true → (s ≡ true) × (t ≡ false)
      at_tests true true false h = (refl, refl)
      at_tests true true true h = cc
      at_tests true false t h = cc
      at_tests false s t h = cc

  in_order :
      (p : Payload) (rs : List Relayed) (ds : List (Payload × List Relayed))
      → is_split p ≡ true
      → All IsSilent rs
      → All (λ (x : Payload × List Relayed). x.0 ≡ whole body) ds
      → InOrder body p ((p, rs) ∷ ds)
  in_order p rs [] s q h = refl
  in_order p rs (y ∷ ys) s q (h, hs) = (refl, s, q, h)

  after_outcome-IsOrderly :
      (a : Agent) (p : Payload) (skip : Option String) (pool : List Conn) (r : Reply)
      (again : Agent → Driven) (o : Option (Result SessionError ResponseEnd))
      → ((b : Agent) → IsLast (again b))
      → (r.state.head_sent ≡ false → All IsSilent r.relayed)
      → o ≢ none
      → IsOrderly p (
          attempted w profile head body now p r
            (after_outcome w profile head body now 1 a p skip pool r again o))
  unfolding after_outcome
  after_outcome-IsOrderly a p skip pool r again none last quiet total = absurd (total refl)
  after_outcome-IsOrderly a p skip pool r again (some (ok e)) last quiet total = record {
    ended = λ n. cc;
    at_most_two = omega arith;
    in_order = refl;
  }
  after_outcome-IsOrderly a p skip pool r again (some (err e)) last quiet total =
      elim (Bool-cases (retryable w profile head body now e 1 p r.state.head_sent)) [
        | inl again_whole ↦
            let (s, unsent) = retries_why e p r.state.head_sent again_whole in
            let b : Agent = record {
              link = count_failure r.state.link;
              pool = pool;
              head_sent = r.state.head_sent;
            } in
            let l : IsLast (again b) = last b in
            rw again_whole (record {
              ended = l.ended;
              at_most_two = omega (arith, l.once);
              in_order = in_order p r.relayed (again b).attempts s (quiet unsent) l.whole_body;
            })
        | inr stop ↦
            rw stop (record { ended = λ n. cc; at_most_two = omega arith; in_order = refl })
      ]

  on_taken-IsOrderly :
      (a : Agent) (p : Payload) (skip : Option String) (pool : List Conn) (met : Attempt)
      (again : Agent → Driven) (t : Result SessionError Conn)
      → ((b : Agent) → IsLast (again b))
      → IsOrderly p (on_taken w profile head body now 1 a p skip pool met again t)
  unfolding on_taken
  on_taken-IsOrderly a p skip pool met again (err e) last = record {
    ended = λ n. cc;
    at_most_two = omega arith;
    in_order = tt;
  }
  on_taken-IsOrderly a p skip pool met again (ok conn) last =
      let (quiet, total) =
        local_end-quiet w head p now conn a.link a.head_sent met.arrivals met.upload_fails in
      after_outcome-IsOrderly a p skip pool _ again _ last quiet total

  attempts_of-IsOrderly :
      (env : ℕ → Attempt) (a : Agent) (payload : Payload) (skip : Option String)
      → IsOrderly payload (attempts_of w profile head body now env a payload skip)
  unfolding attempts_of drive_loop
  attempts_of-IsOrderly env a payload skip =
      on_taken-IsOrderly a payload skip _ _ _ (take_conn (env 1).dialled a.pool).0
        (λ b. second-IsLast env b (some "rebuild failed"))

  -- A request comes to an outcome in at most two attempts: the payload as prepared, and the body
  -- whole only where that was a split and its attempt gave the agent no response head. So it is
  -- whatever the dials give, whatever frames or errors the reads of a connection give before it
  -- closes, whichever write to it fails, and whether or not the agent still takes what it is sent. A
  -- connection that neither delivers nor closes is left out.
  pub drive-IsOrderly :
      (seq us : ℕ) (env : ℕ → Attempt) (a : Agent) (log : TurnLog) (payload : Payload)
      (skip : Option String)
      → IsOrderly payload (drive w profile head body now seq us env a log payload skip).0
  unfolding drive record_end
  drive-IsOrderly seq us env a log payload skip =
      let d : Driven = attempts_of w profile head body now env a payload skip in
      recorded d d.outcome (attempts_of-IsOrderly env a payload skip)
    where
      recorded :
          (d : Driven) (o : Option (Result SessionError ResponseEnd))
          → IsOrderly payload d
          → IsOrderly payload (record_end w profile head body now seq us log d o).0
      recorded d (some (ok e)) h = record {
        ended = h.ended;
        at_most_two = h.at_most_two;
        in_order = h.in_order;
      }
      recorded d (some (err e)) h = h
      recorded d none h = h
