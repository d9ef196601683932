-- ===== src/Evaluation/Cycle.antt =====
-- `repeated_read_only_cycle` of src/evaluation_service/runner.py. A timeline is listed newest first,
-- so that a suffix of it stands in front.
pub mod Sound
use frontier_long_horizon_en.Prelude.{
  ℕ, zero, suc, ◌+◌, ◌-◌, String, Bool, true, false, not, ◌&&◌, ◌||◌, Option, none, some, List, [],
  ◌∷◌, nat_eq, ltb, leb, ◌==◌, if◌then◌else◌, length, contains,
}
use Prim.Native.Nat.{◌/◌}

-- An entry of the timeline: of its fields those that the loop reads. Arguments and the summary of
-- the result are texts of JSON.
pub record Entry : Type 0 where
  pub tool : String
  pub arguments : String
  pub result_summary : String
  pub success : Bool
  pub terminated : Bool
  pub truncated : Bool

abbrev pub read_only_tools : List String
read_only_tools =
    "release.status" ∷ "workspace.read" ∷ "telemetry.logs" ∷ "telemetry.trace" ∷ "state.inspect"
    ∷ []

abbrev pub is_read : Entry → Bool
is_read e = e.success && contains e.tool read_only_tools

-- The newest entries up to the first that is no successful reading.
unfoldable pub read_suffix : List Entry → List Entry
read_suffix [] = []
read_suffix (e ∷ es) = let rest = read_suffix es in if is_read e then e ∷ rest else []

-- Whether two entries have one tool, one text of arguments and one of results.
abbrev pub same_call : Entry → Entry → Bool
same_call d e =
    (d.tool == e.tool) && ((d.arguments == e.arguments) && (d.result_summary == e.result_summary))

-- Whether the first `n` entries are there in both lists and the same.
unfoldable pub same_block : ℕ → List Entry → List Entry → Bool
same_block zero ds es = true
same_block (suc n) (d ∷ ds) (e ∷ es) = same_call d e && same_block n ds es
same_block (suc n) _ _ = false

abbrev pub drop : ℕ → List Entry → List Entry
drop zero es = es
drop (suc n) [] = []
drop (suc n) (e ∷ es) = drop n es

-- The `while` loop on the entries behind the first block, from the repeats counted so far. The fuel
-- is the number of entries: each round but the last takes some off.
unfoldable pub count_repeats : ℕ → ℕ → List Entry → List Entry → ℕ → ℕ
unfolding same_block
count_repeats zero n pattern es repeats = repeats
count_repeats (suc fuel) n pattern es repeats =
    let more = count_repeats fuel n pattern (drop n es) (repeats + 1) in
    if same_block n pattern es then more else repeats

abbrev pub min : ℕ → ℕ → ℕ
min a b = if ltb a b then a else b

-- The `for` loop, from a cycle length on, with the number of lengths that are left.
unfoldable pub find_cycle : ℕ → ℕ → List Entry → Option (ℕ × ℕ)
unfolding count_repeats
find_cycle zero n suffix = none
find_cycle (suc left) n suffix =
    let rest = find_cycle left (n + 1) suffix in
    let repeats = count_repeats (length suffix) n suffix (drop n suffix) 1 in
    if leb 2 repeats then some (n, repeats) else rest

unfoldable pub repeated_read_only_cycle : List Entry → Option (ℕ × ℕ)
unfolding read_suffix find_cycle
repeated_read_only_cycle timeline =
    let suffix = read_suffix timeline in find_cycle (min 4 (length suffix / 2)) 1 suffix
