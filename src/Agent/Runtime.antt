-- ===== src/Agent/Runtime.antt =====
-- `RuntimeStore` of src/agent_surface/runtime.py: the bounded store methods that the stages of a
-- service call. A run holds the canonical store and the counters of one workload; the methods are
-- computations that may raise. Proofs are in the modules below.
use frontier_long_horizon_en.Prelude.{
  ℕ, String, Bool, true, false, ◌&&◌, ◌||◌, Option, none, some, List, [], ◌∷◌, ltb, nat_eq, ◌==◌,
  if◌then◌else◌, Dict, ok, err,
}
use frontier_long_horizon_en.Prelude.Exec.{Exec}
use frontier_long_horizon_en.Substrate.Tables.{JournalRow, EffectRow, KeyRow}
use frontier_long_horizon_en.Substrate.Store.{Store}

abbrev pub effect_amount : ℕ
effect_amount = 100

-- The dictionary of a command.
pub record Command : Type 0 where
  pub command_key : String
  pub occurrence_id : String
  pub alias : String
  pub amount : String

-- The dictionary that `load` returns; H-A3 adds a logical effect key to it.
pub record Event : Type 0 where
  pub event_id : String
  pub command_key : String
  pub occurrence_id : String
  pub payload_hash : String
  pub accepted_tick : ℕ
  pub logical_effect_key : Option String

-- The exceptions that leave a store method: `ToolError`, `Cutpoint`, `TransientFailure`, and the
-- `IntegrityError` of sqlite3.
pub data Stop : Type 0 where
  tool_error : String → Stop
  cutpoint_stop : Option String → Option String → Stop
  transient_failure : Stop
  integrity_error : Stop
  -- no exception of the program: the fuel of the delivery loop was too little
  out_of_fuel : Stop

pub record Selector : Type 0 where
  pub event_id : String
  pub command_key : Option String
  pub occurrence_id : Option String

pub record Run : Type 0 where
  pub store : Store
  pub workload_id : String
  pub cutpoint : Option String
  pub alias : String
  pub handle : String
  pub start_tick : ℕ
  pub attempts : Dict ℕ
  pub cutpoint_triggered : Bool
  pub s2_cutpoint_pending : Bool
  pub s5_cutpoint_pending : Bool
  pub transient_pending : Bool
  pub selectors : List Selector

abbrev pub M : Type 0 → Type 0
M A = Exec Run Stop A

infixl 5 ◌>>=◌ ◌>>◌
abbrev pub ◌>>=◌ : {A B : Type 0} → M A → (A → M B) → M B
◌>>=◌ m f r = let (a, r') = m r in elim a [ ok x ↦ f x r' | err e ↦ (err e, r') ]

abbrev pub ◌>>◌ : {A B : Type 0} → M A → M B → M B
m >> k = m >>= λ _. k

abbrev is_cutpoint : Option String → String → Bool
is_cutpoint none c = false
is_cutpoint (some d) c = d == c

abbrev is_none : Option String → Bool
is_none none = true
is_none (some _) = false

-- The constructor, with the transient switch that `RuntimeEngine.run` always passes.
unfoldable pub new_run : Store → ℕ → Option String → String → String → String → Bool → Run
new_run store profile cutpoint workload_id alias handle transient = record {
  store = store;
  workload_id = workload_id;
  cutpoint = cutpoint;
  alias = alias;
  handle = handle;
  start_tick = store.fake_tick;
  attempts = [];
  cutpoint_triggered = false;
  s2_cutpoint_pending = is_cutpoint cutpoint "s2.exit" && nat_eq profile 1;
  s5_cutpoint_pending = is_cutpoint cutpoint "s5.exit" && nat_eq profile 0;
  transient_pending = transient && is_none cutpoint;
  selectors = [];
}

-- Queries on the tables; `ORDER BY seq LIMIT 1` is the first match.
unfoldable pub find_command : String → String → List JournalRow → Option JournalRow
find_command k o [] = none
find_command k o (r ∷ rs) =
    let rest = find_command k o rs in
    if (r.command_key == k) && (r.occurrence_id == o) then some r else rest

unfoldable pub find_event : String → List JournalRow → Option JournalRow
find_event i [] = none
find_event i (r ∷ rs) = let rest = find_event i rs in if r.event_id == i then some r else rest

unfoldable pub find_seq : ℕ → List JournalRow → Option JournalRow
find_seq n [] = none
find_seq n (r ∷ rs) = let rest = find_seq n rs in if nat_eq r.seq n then some r else rest

-- The row with the least tick; of equal ticks the first.
unfoldable pub earliest : List EffectRow → Option EffectRow
earliest [] = none
earliest (r ∷ rs) = elim (earliest rs) [
  | none ↦ some r
  | some q ↦ if ltb q.committed_tick r.committed_tick then some q else some r
]

unfoldable pub effects_of : String → List EffectRow → List EffectRow
effects_of i [] = []
effects_of i (r ∷ rs) =
    let rest = effects_of i rs in if r.source_event_id == i then r ∷ rest else rest

unfoldable pub effects_by_key : String → String → List EffectRow → List EffectRow
effects_by_key i k [] = []
effects_by_key i k (r ∷ rs) =
    let rest = effects_by_key i k rs in
    if (r.source_event_id == i) && (r.logical_effect_key == k) then r ∷ rest else rest

abbrev pub effect_id_of : Option EffectRow → Option String
effect_id_of none = none
effect_id_of (some r) = some r.effect_id

abbrev pub event_id_of : Option JournalRow → Option String
event_id_of none = none
event_id_of (some r) = some r.event_id

unfoldable pub has_effect : String → List EffectRow → Bool
has_effect i [] = false
has_effect i (r ∷ rs) = (r.effect_id == i) || has_effect i rs

-- `INSERT OR REPLACE` under the primary key of `command_keys`, and of `event_marks`.
unfoldable pub replace_key : KeyRow → List KeyRow → List KeyRow
replace_key k [] = k ∷ []
replace_key k (r ∷ rs) =
    let rest = replace_key k rs in
    if (r.command_key == k.command_key) && (r.occurrence_id == k.occurrence_id)
    then rest
    else r ∷ rest

abbrev pub logical_key : Event → String
logical_key e = elim e.logical_effect_key [ none ↦ "settlement" | some k ↦ k ]
