-- ===== src/Git/Search.antt =====
-- `pr_branch_search` and `pr_branch_search_chunks` of crates/hitch-git/src/lib.rs. A branch name is
-- its UTF-8 bytes.
pub mod Groups
use hitch.Prelude.{
  ℕ, ◌+◌, Bool, true, false, ◌&&◌, ◌||◌, List, [], ◌∷◌, ◌++◌, Bytes, ltb, ◌==◌, if◌then◌else◌,
  length,
}
use hitch.Prelude.Text.{codes, is_empty}

abbrev pub max_heads_per_query : ℕ
max_heads_per_query = 6

abbrev pub max_search_len : ℕ
max_search_len = 200

-- `branches.iter().filter(|branch| !branch.is_empty())`
unfoldable pub present : List Bytes → List Bytes
present [] = []
present (b ∷ bs) = let rest = present bs in if is_empty b then rest else b ∷ rest

-- The loop; `first` is its flag.
unfoldable pub search_from : Bool → List Bytes → Bytes
search_from first [] = []
search_from first (b ∷ bs) =
    let same = search_from first bs in
    let rest = search_from false bs in
    if is_empty b
    then same
    else (if first then [] else codes " OR ") ++ (codes "head:" ++ (b ++ rest))

unfoldable pub pr_branch_search : List Bytes → Bytes
unfolding search_from present
pr_branch_search branches =
    let head_count = length (present branches) in
    let several = ltb 1 head_count in
    if head_count == 0
    then []
    else (if several then codes "(" else [])
      ++ (search_from true branches ++ (if several then codes ")" else []))

-- One round of the loop: the query that it pushes, where it does, and the next `current` and
-- `current_len`.
unfoldable pub place : Bytes → List Bytes → ℕ → List Bytes × List Bytes × ℕ
unfolding pr_branch_search
place branch current current_len =
    let cost = length branch + 9 in
    if is_empty branch
    then ([], current, current_len)
    else if ltb 0 (length current)
        && (length current == max_heads_per_query || ltb max_search_len (current_len + cost))
    then (pr_branch_search current ∷ [], branch ∷ [], cost)
    else ([], current ++ branch ∷ [], current_len + cost)

unfoldable pub chunks_from : List Bytes → List Bytes → ℕ → List Bytes
unfolding place
chunks_from [] current current_len =
    if length current == 0 then [] else pr_branch_search current ∷ []
chunks_from (branch ∷ branches) current current_len =
    let (pushed, next, next_len) = place branch current current_len in
    pushed ++ chunks_from branches next next_len

abbrev pub pr_branch_search_chunks : List Bytes → List Bytes
pr_branch_search_chunks branches = chunks_from branches [] 0
