-- ===== src/Git/Search/Groups.antt =====
-- The queries cover every branch, within GitHub's limits.
use mathlib.Core.List.{flatten}
use hitch.Prelude.{
  ℕ, ◌+◌, ◌≤◌, ◌<◌, ◌≡◌, refl, sym, ap, ◌∙◌, ◌≢◌, ◌⊎◌, inl, inr, Bool, true, false, ◌&&◌, ◌||◌,
  List, [], ◌∷◌, ◌++◌, append-nil, append_assoc, arith, Bytes, ltb, ◌==◌, if◌then◌else◌, Bool-cases,
  length, length-append, All, All-append, empty_list,
}
use hitch.Prelude.Text.{codes, is_empty}
use hitch.Git.Search.{
  present, search_from, pr_branch_search, place, chunks_from, pr_branch_search_chunks,
  max_heads_per_query, max_search_len,
}

abbrev cost : List Bytes → ℕ
cost [] = 0
cost (b ∷ bs) = length b + 9 + cost bs

abbrev Present : List Bytes → Type 0
Present bs = All (λ b. is_empty b ≡ false) bs

cost-append : (xs ys : List Bytes) → cost (xs ++ ys) ≡ cost xs + cost ys
cost-append [] ys = omega arith
cost-append (x ∷ xs) ys = omega (arith, cost-append xs ys)

length-search_from : (bs : List Bytes) → Present bs → length (search_from false bs) ≡ cost bs
unfolding search_from
length-search_from [] p = refl
length-search_from (b ∷ bs) p =
    rw (p.0, length-append b (search_from false bs), length-search_from bs p.1) (omega arith)

present_all : (bs : List Bytes) → Present bs → present bs ≡ bs
unfolding present
present_all [] p = refl
present_all (b ∷ bs) p = rw (p.0, present_all bs p.1) refl

bracket : (t : Bool) (c : ℕ) → length (if t then c ∷ [] else []) ≤ 1
bracket true c = omega arith
bracket false c = omega arith

search_is :
    (b : Bytes) (bs : List Bytes)
    → Present (b ∷ bs)
    → let several = ltb 1 (length (b ∷ bs)) in
      pr_branch_search (b ∷ bs)
      ≡ (if several then codes "(" else [])
        ++ ((codes "head:" ++ (b ++ search_from false bs)) ++ (if several then codes ")" else []))
unfolding pr_branch_search search_from
search_is b bs p =
    let filled : (length (b ∷ bs) == 0) ≡ false = ground arith in
    rw (present_all (b ∷ bs) p, p.0, filled) refl

-- A query is no longer than the sum that the chunking keeps.
length-pr_branch_search : (bs : List Bytes) → Present bs → length (pr_branch_search bs) ≤ cost bs
length-pr_branch_search [] p = unfold pr_branch_search present in omega arith
length-pr_branch_search (b ∷ bs) p =
    let several = ltb 1 (length (b ∷ bs)) in
    let opened = if several then codes "(" else [] in
    let closed = if several then codes ")" else [] in
    let body = codes "head:" ++ (b ++ search_from false bs) in
    let sizes : length (opened ++ (body ++ closed))
        ≡ length opened + (length body + length closed) =
      length-append opened (body ++ closed)
      ∙ ap (λ n. length opened + n) (length-append body closed) in
    let body_is : length body ≡ 5 + (length b + cost bs) =
      length-append (codes "head:") (b ++ search_from false bs)
      ∙ ap (λ n. 5 + n)
          (length-append b (search_from false bs)
            ∙ ap (λ n. length b + n) (length-search_from bs p.1)) in
    rw (search_is b bs p, sizes, body_is)
      (omega (arith, bracket several b'(', bracket several b')'))

-- The branches of one query: few enough, and short enough unless it is a single one.
pub record IsQuery (group : List Bytes) : Type 0 where
  pub some_head : 0 < length group
  pub few_heads : length group ≤ max_heads_per_query
  pub short : (length (pr_branch_search group) ≤ max_search_len) ⊎ (length group ≡ 1)

record IsCurrent (current : List Bytes) (current_len : ℕ) : Type 0 where
  all_present : Present current
  counted : current_len ≡ cost current
  few : length current ≤ max_heads_per_query
  fits : (current_len ≤ max_search_len) ⊎ (length current ≤ 1)

current-IsQuery :
    (current : List Bytes) (n : ℕ)
    → IsCurrent current n
    → (length current == 0) ≡ false
    → IsQuery current
current-IsQuery current n c filled =
    let size = length-pr_branch_search current c.all_present in
    let some_head : 0 < length current = ground (arith, filled) in
    record {
      some_head = some_head;
      few_heads = c.few;
      short = elim c.fits [
        | inl fits ↦ inl (omega (arith, size, c.counted, fits))
        | inr one ↦ inr (omega (arith, one, some_head))
      ];
    }

abbrev pub queries_of : List (List Bytes) → List Bytes
queries_of [] = []
queries_of (group ∷ groups) = pr_branch_search group ∷ queries_of groups

-- The groups behind the queries, from a state of the loop.
record Grouped (branches current : List Bytes) (queries : List Bytes) : Type 0 where
  groups : List (List Bytes)
  queries_are : queries ≡ queries_of groups
  complete : flatten groups ≡ current ++ present branches
  limits : All IsQuery groups

single-IsCurrent :
    (branch : Bytes) → is_empty branch ≡ false → IsCurrent (branch ∷ []) (length branch + 9)
single-IsCurrent branch filled = record {
  all_present = (filled, tt);
  counted = omega arith;
  few = omega arith;
  fits = inr (omega arith);
}

more-IsCurrent :
    (branch : Bytes) (current : List Bytes) (n : ℕ)
    → IsCurrent current n
    → is_empty branch ≡ false
    → (ltb 0 (length current)
        && (length current == max_heads_per_query || ltb max_search_len (n + (length branch + 9))))
      ≡ false
    → IsCurrent (current ++ branch ∷ []) (n + (length branch + 9))
more-IsCurrent branch current n c filled room =
    let one_more = length-append current (branch ∷ []) in
    let room_left : (length current ≡ 0)
        ⊎ ((length current ≢ 6) × (n + (length branch + 9) ≤ 200)) =
      room_cases (length current) (n + (length branch + 9)) room in
    record {
      all_present = All-append _ current (branch ∷ []) c.all_present (filled, tt);
      counted = omega (arith, c.counted, cost-append current (branch ∷ []));
      few = elim room_left [
        | inl none_yet ↦ omega (arith, one_more, none_yet)
        | inr (not_six, fits) ↦ omega (arith, one_more, not_six, c.few)
      ];
      fits = elim room_left [
        | inl none_yet ↦ inr (omega (arith, one_more, none_yet))
        | inr (not_six, fits) ↦ inl fits
      ];
    }
  where
    room_cases :
        (heads total : ℕ)
        → (ltb 0 heads && (heads == 6 || ltb 200 total)) ≡ false
        → (heads ≡ 0) ⊎ ((heads ≢ 6) × (total ≤ 200))
    room_cases heads total h = grind (arith, h)

chunks_from-Grouped :
    (branches current : List Bytes) (n : ℕ)
    → IsCurrent current n
    → Grouped branches current (chunks_from branches current n)
unfolding chunks_from present flatten place
chunks_from-Grouped [] current n c = elim (Bool-cases (length current == 0)) [
  | inl none_left ↦ rw none_left (record {
    groups = [];
    queries_are = refl;
    complete = sym (append-nil current ∙ empty_list current none_left);
    limits = tt;
  })
  | inr filled ↦ rw filled (record {
    groups = current ∷ [];
    queries_are = refl;
    complete = refl;
    limits = (current-IsQuery current n c filled, tt);
  })
]
chunks_from-Grouped (branch ∷ branches) current n c = elim (Bool-cases (is_empty branch)) [
  | inl blank ↦
      let r = chunks_from-Grouped branches current n c in
      rw (blank) (record {
        groups = r.groups;
        queries_are = r.queries_are;
        complete = rw blank r.complete;
        limits = r.limits;
      })
  | inr filled ↦
      let cost_here = length branch + 9 in
      let full =
        ltb 0 (length current)
        && (length current == max_heads_per_query || ltb max_search_len (n + cost_here)) in
      elim (Bool-cases full) [
        | inl over ↦
            let r =
              chunks_from-Grouped branches (branch ∷ []) cost_here
                (single-IsCurrent branch filled) in
            let some_there : (length current == 0) ≡ false = ground (arith, over) in
            rw (filled, over)
              (record {
                groups = current ∷ r.groups;
                queries_are = ap (λ qs. pr_branch_search current ∷ qs) r.queries_are;
                complete = rw filled (ap (λ bs. current ++ bs) r.complete);
                limits = (current-IsQuery current n c some_there, r.limits);
              })
        | inr room ↦
            let r =
              chunks_from-Grouped branches (current ++ branch ∷ []) (n + cost_here)
                (more-IsCurrent branch current n c filled room) in
            rw (filled, room)
              (record {
                groups = r.groups;
                queries_are = r.queries_are;
                complete =
                    rw filled (r.complete ∙ append_assoc current (branch ∷ []) (present branches));
                limits = r.limits;
              })
      ]
]

-- The queries are those of groups of the branches: the groups, one after the other, are exactly the
-- branches with a name, in order, and each group has between one and six heads and a query of at
-- most 200 bytes, unless it is one branch alone.
pub pr_branch_search_chunks-groups :
    (branches : List Bytes)
    → (groups : List (List Bytes)) × (pr_branch_search_chunks branches ≡ queries_of groups)
      × (flatten groups ≡ present branches)
      × All IsQuery groups
pr_branch_search_chunks-groups branches =
    let empty_current : IsCurrent [] 0 = record {
      all_present = tt;
      counted = refl;
      few = omega arith;
      fits = inl (omega arith);
    } in
    let r = chunks_from-Grouped branches [] 0 empty_current in
    (r.groups, r.queries_are, r.complete, r.limits)
