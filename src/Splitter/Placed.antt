-- ===== src/Splitter/Placed.antt =====
-- The groups of `structural_groups` (crates/muka-split/src/splitter.rs): where they lie, and which of
-- them have children.
use muka_ai_trim.Common.{
  ℕ, suc, ◌<◌, ◌≡◌, ◌⊎◌, inl, inr, refl, subst, List, [], ◌∷◌, ◌++◌, leb, if◌then◌else◌, if-holds,
  Result, ok, err, ◌>>=◌, >>=-eq-ok, ok-injective, All, All-append,
}
use muka_ai_trim.Json.{Span, IsInside}
use muka_ai_trim.Json.Scan.{ScanError, ValueSpan, object}
use muka_ai_trim.Json.Members.{Member, members_of_object, values}
use muka_ai_trim.Policy.{Policy, Cand, Group, Skip, unrecognised}
use muka_ai_trim.Splitter.Blocks.{IsOrdered}
use muka_ai_trim.Splitter.Candidates.{
  collect_payloads, member_cands, before_span, insert_cand, sort_cands, groups_of, pass_groups,
  holds_payload, add_child, assign, merge_groups, structural_groups,
}
use muka_ai_trim.Splitter.Identity.{IsGroupOf}
use muka_ai_trim.Splitter.Inside.{
  IsValueOf, IsWhole, IsPart, members-IsValueOf, member_cands-IsWhole, collect_payloads-IsPart,
}

-- A span of the body whose children are payloads. Only a JSON member has children.
pub record IsPlaced (body : List ℕ) (g : Group) : Type 0 where
  pub inside : IsInside g.cand.span body
  pub parts : All (IsPart body) g.children
  pub nests : IsWhole body g.cand ⊎ (g.children ≡ [])

pub parts-IsOrdered : (body : List ℕ) (cs : List Cand) → All (IsPart body) cs → All IsOrdered cs
parts-IsOrdered body [] h = tt
parts-IsOrdered body (c ∷ cs) (h, hs) = (h.inside.ordered, parts-IsOrdered body cs hs)

pub IsPlaced-IsGroupOf :
    (body : List ℕ) (gs : List Group) → All (IsPlaced body) gs → All (IsGroupOf body) gs
IsPlaced-IsGroupOf body [] h = tt
IsPlaced-IsGroupOf body (g ∷ gs) (h, hs) =
    ((h.inside, parts-IsOrdered body g.children h.parts), IsPlaced-IsGroupOf body gs hs)

module _ (body : List ℕ) where
  -- A group that may have children.
  abbrev IsOpen : Group → Type 0
  IsOpen g = IsWhole body g.cand × All (IsPart body) g.children

  insert_cand-IsWhole :
      (c : Cand) (cs : List Cand)
      → IsWhole body c
      → All (IsWhole body) cs
      → All (IsWhole body) (insert_cand c cs)
  unfolding insert_cand
  insert_cand-IsWhole c [] h hs = (h, tt)
  insert_cand-IsWhole c (d ∷ ds) h (hd, hs) =
      if-holds (All (IsWhole body)) (before_span c.span d.span) (h, (hd, hs))
        (hd, insert_cand-IsWhole c ds h hs)

  sort_cands-IsWhole : (cs : List Cand) → All (IsWhole body) cs → All (IsWhole body) (sort_cands cs)
  unfolding sort_cands
  sort_cands-IsWhole [] h = tt
  sort_cands-IsWhole (c ∷ cs) (h, hs) =
      insert_cand-IsWhole c (sort_cands cs) h (sort_cands-IsWhole cs hs)

  groups_of-IsOpen : (cs : List Cand) → All (IsWhole body) cs → All IsOpen (groups_of cs)
  unfolding groups_of
  groups_of-IsOpen [] h = tt
  groups_of-IsOpen (c ∷ cs) (h, hs) = ((h, tt), groups_of-IsOpen cs hs)

  pub groups_of-IsPlaced :
      (cs : List Cand) → All (λ c. IsInside c.span body) cs → All (IsPlaced body) (groups_of cs)
  unfolding groups_of
  groups_of-IsPlaced [] h = tt
  groups_of-IsPlaced (c ∷ cs) (h, hs) =
      (record { inside = h; parts = tt; nests = inr refl }, groups_of-IsPlaced cs hs)

  abbrev AllGroups : List Group → Type 0
  AllGroups gs = All IsOpen gs

  pass_groups-IsOpen :
      (pl : Cand) (front rest : List Group)
      → AllGroups front
      → AllGroups rest
      → AllGroups (pass_groups pl front rest).0 × AllGroups (pass_groups pl front rest).1
  unfolding pass_groups
  pass_groups-IsOpen pl front [] hf hr = (hf, tt)
  pass_groups-IsOpen pl front (g ∷ gs) hf (hg, hr) =
      if-holds (λ (q : List Group × List Group). AllGroups q.0 × AllGroups q.1)
        (leb g.cand.span.end pl.span.start)
        (pass_groups-IsOpen pl (front ++ (g ∷ [])) gs (All-append IsOpen front (g ∷ []) hf (hg, tt))
          hr)
        (hf, (hg, hr))

  add_child-IsOpen :
      (pl : Cand) (gs : List Group) → IsPart body pl → AllGroups gs → AllGroups (add_child pl gs)
  add_child-IsOpen pl [] h hs = tt
  add_child-IsOpen pl (g ∷ gs) h ((hc, hch), hs) =
      ((hc, All-append (IsPart body) g.children (pl ∷ []) hch (h, tt)), hs)

  assign-IsOpen :
      (pls : List Cand) (front rest : List Group) (promoted : List Cand)
      → All (IsPart body) pls
      → AllGroups front
      → AllGroups rest
      → All (IsPart body) promoted
      → AllGroups (assign pls front rest promoted).0
        × All (IsPart body) (assign pls front rest promoted).1
  unfolding assign
  assign-IsOpen [] front rest promoted hp hf hr hq = (All-append IsOpen front rest hf hr, hq)
  assign-IsOpen (pl ∷ pls) front rest promoted (h, hp) hf hr hq =
      let (a, b) = pass_groups-IsOpen pl front rest hf hr in
      let rest' : List Group = (pass_groups pl front rest).1 in
      assign-IsOpen pls (pass_groups pl front rest).0
        (if holds_payload pl rest' then add_child pl rest' else rest')
        (if holds_payload pl rest' then promoted else promoted ++ (pl ∷ [])) hp a
        (if-holds AllGroups (holds_payload pl rest') (add_child-IsOpen pl rest' h b) b)
        (if-holds (All (IsPart body)) (holds_payload pl rest') hq
          (All-append (IsPart body) promoted (pl ∷ []) hq (h, tt)))

  IsOpen-IsPlaced : (g : Group) → IsOpen g → IsPlaced body g
  IsOpen-IsPlaced g (h, hs) = record { inside = h.inside; parts = hs; nests = inl h }

  IsPart-IsPlaced : (c : Cand) → IsPart body c → IsPlaced body (record { cand = c; children = [] })
  IsPart-IsPlaced c h = record { inside = h.inside; parts = tt; nests = inr refl }

  merge_groups-IsPlaced :
      (gs : List Group) (ps : List Cand)
      → AllGroups gs
      → All (IsPart body) ps
      → All (IsPlaced body) (merge_groups gs ps)
  unfolding merge_groups
  merge_groups-IsPlaced [] [] hg hp = tt
  merge_groups-IsPlaced [] (y ∷ ys) hg (h, hp) =
      (IsPart-IsPlaced y h, merge_groups-IsPlaced [] ys tt hp)
  merge_groups-IsPlaced (x ∷ xs) [] (h, hg) hp =
      (IsOpen-IsPlaced x h, merge_groups-IsPlaced xs [] hg tt)
  merge_groups-IsPlaced (x ∷ xs) (y ∷ ys) (hx, hg) (hy, hp) =
      if-holds (All (IsPlaced body)) (leb x.cand.span.start y.span.start)
        (IsOpen-IsPlaced x hx, merge_groups-IsPlaced xs (y ∷ ys) hg (hy, hp))
        (IsPart-IsPlaced y hy, merge_groups-IsPlaced (x ∷ xs) ys (hx, hg) hp)

  -- Every group that `structural_groups` finds is placed in the body.
  pub structural_groups-IsPlaced :
      (p : Policy) (doc : Span) (gs : List Group)
      → IsInside doc body
      → doc.start < doc.end
      → structural_groups body p doc ≡ ok gs
      → All (IsPlaced body) gs
  unfolding structural_groups
  structural_groups-IsPlaced p doc gs inside some h =
      at_members (members_of_object body doc) (members-IsValueOf body doc) h
    where
      root : ValueSpan
      root = record { span = doc; kind = object }

      groups_from : List Cand × List Cand → List Group
      groups_from q =
          let placed : List Group × List Cand =
            assign (collect_payloads body p (suc p.max_depth) root []) []
              (groups_of (sort_cands (q.0 ++ q.1))) [] in
          merge_groups placed.0 placed.1

      found : List Member → Result Skip (List Group)
      found ms = member_cands body p ms >>= λ q. ok (groups_from q)

      at_members :
          (r : Result ScanError (List Member))
          → ((ms : List Member) → r ≡ ok ms → All (IsValueOf body) (values body ms))
          → (elim r [ err e ↦ err unrecognised | ok ms ↦ found ms ]) ≡ ok gs
          → All (IsPlaced body) gs
      at_members (err e) hv k = cc
      at_members (ok ms) hv k =
          let (q, hq, e) = >>=-eq-ok (member_cands body p ms) _ k in
          let (a, b) = member_cands-IsWhole body p ms q (hv ms refl) hq in
          let payloads : List Cand = collect_payloads body p (suc p.max_depth) root [] in
          let sorted : List Cand = sort_cands (q.0 ++ q.1) in
          let (c, d) =
            assign-IsOpen payloads [] (groups_of sorted) []
              (collect_payloads-IsPart body p (suc p.max_depth) root [] (inside, some) tt) tt
              (groups_of-IsOpen sorted
                (sort_cands-IsWhole (q.0 ++ q.1) (All-append (IsWhole body) q.0 q.1 a b)))
              tt in
          subst (All (IsPlaced body)) (ok-injective e) (merge_groups-IsPlaced _ _ c d)
