-- ===== src/Agent/Engine/Once.antt =====
-- The repaired stages never duplicate: at most one journal row for a command occurrence, and at most
-- one effect for an event and a logical key, whatever cutpoints, failures and retries occur.
pub mod Stages
pub mod Retries
use frontier_long_horizon_en.Prelude.{
  ℕ, zero, suc, ◌+◌, ◌≤◌, String, ◌≡◌, refl, Bool, true, false, not, ◌&&◌, ◌||◌, Option, none, some,
  List, [], ◌∷◌, ◌++◌, All, All-append, Result, ok, err, arith, ◌==◌, eq_iff, if◌then◌else◌,
  Bool-cases, Option-cases, inl, inr, leb, ltb,
}
use frontier_long_horizon_en.Prelude.Exec.{pure}
use frontier_long_horizon_en.Substrate.Tables.{JournalRow, EffectRow, Service}
use frontier_long_horizon_en.Substrate.Canonical.{Primitives}
use frontier_long_horizon_en.Agent.Runtime.{
  Command, Event, Stop, cutpoint_stop, transient_failure, Run, M, ◌>>=◌, logical_key, find_command,
  effects_by_key, earliest, event_id_of, effect_id_of,
}
use frontier_long_horizon_en.Agent.Methods.{
  service_of, prepare, append, register, load, settle, advance_cursor, get_event_id, effect_by_key,
  restart,
}
use frontier_long_horizon_en.Agent.Flow.{
  Flow, accept, deliver, or_else, logical_identity_flow, identity_s2, identity_s5,
}
use frontier_long_horizon_en.Agent.Engine.{
  after_accept, accept_command, Delivery, log_interrupted, after_delivery, deliver_loop,
  deliver_event,
}

-- How many rows there are for a command and an occurrence, and for an event and a logical key.
abbrev pub count_command : String → String → List JournalRow → ℕ
count_command k o [] = 0
count_command k o (r ∷ rs) =
    if (r.command_key == k) && (r.occurrence_id == o)
    then suc (count_command k o rs)
    else count_command k o rs

abbrev pub count_effects : String → String → List EffectRow → ℕ
count_effects i k [] = 0
count_effects i k (r ∷ rs) =
    if (r.source_event_id == i) && (r.logical_effect_key == k)
    then suc (count_effects i k rs)
    else count_effects i k rs

-- The invariant. An empty id would count as no id in `existing if existing else …`.
pub record IsOnce (v : Service) : Type 0 where
  pub commands : (k o : String) → count_command k o v.journal ≤ 1
  pub effects : (i k : String) → count_effects i k v.effects ≤ 1
  pub events_named : All (λ (r : JournalRow). (r.event_id == "") ≡ false) v.journal
  pub effects_named : All (λ (r : EffectRow). (r.effect_id == "") ≡ false) v.effects

count_command-append :
    (k o : String) (rs : List JournalRow) (r : JournalRow)
    → count_command k o (rs ++ r ∷ []) ≡ count_command k o rs + count_command k o (r ∷ [])
count_command-append k o [] r = omega arith
count_command-append k o (x ∷ rs) r = ground (arith, count_command-append k o rs r)

count_effects-append :
    (i k : String) (rs : List EffectRow) (r : EffectRow)
    → count_effects i k (rs ++ r ∷ []) ≡ count_effects i k rs + count_effects i k (r ∷ [])
count_effects-append i k [] r = omega arith
count_effects-append i k (x ∷ rs) r = ground (arith, count_effects-append i k rs r)

pub find_command-none :
    (k o : String) (rs : List JournalRow) → find_command k o rs ≡ none → count_command k o rs ≡ 0
unfolding find_command
find_command-none k o [] h = refl
find_command-none k o (r ∷ rs) h = ground (arith, find_command-none k o rs)

pub find_command-named :
    (k o : String) (rs : List JournalRow) (q : JournalRow)
    → All (λ (r : JournalRow). (r.event_id == "") ≡ false) rs
    → find_command k o rs ≡ some q
    → (q.event_id == "") ≡ false
unfolding find_command
find_command-named k o [] q all h = cc
find_command-named k o (r ∷ rs) q all h = ground (arith, find_command-named k o rs q all.1)

pub earliest-none :
    (i k : String) (rs : List EffectRow)
    → earliest (effects_by_key i k rs) ≡ none
    → count_effects i k rs ≡ 0
unfolding earliest effects_by_key
earliest-none i k [] h = refl
earliest-none i k (r ∷ rs) h = ground (arith, earliest-none i k rs)

pub earliest-named :
    (i k : String) (rs : List EffectRow) (q : EffectRow)
    → All (λ (r : EffectRow). (r.effect_id == "") ≡ false) rs
    → earliest (effects_by_key i k rs) ≡ some q
    → (q.effect_id == "") ≡ false
unfolding earliest effects_by_key
earliest-named i k [] q all h = cc
earliest-named i k (r ∷ rs) q all h = elim (Option-cases (earliest (effects_by_key i k rs))) [
  | inl e ↦ ground arith
  | inr (q', e) ↦ ground (arith, earliest-named i k rs q' all.1 e)
]

pub IsOnce-journal :
    (v w : Service) (row : JournalRow)
    → IsOnce v
    → w.journal ≡ v.journal ++ row ∷ []
    → w.effects ≡ v.effects
    → count_command row.command_key row.occurrence_id v.journal ≡ 0
    → (row.event_id == "") ≡ false
    → IsOnce w
IsOnce-journal v w row once j e fresh named = record {
  commands = λ k o.
      rw (j, count_command-append k o v.journal row)
        (ground
          (arith, once.commands k o, fresh, eq_iff row.command_key k, eq_iff row.occurrence_id o));
  effects = λ i k. rw e (once.effects i k);
  events_named = rw j (
      All-append (λ (r : JournalRow). (r.event_id == "") ≡ false) v.journal (row ∷ [])
        once.events_named (named, tt));
  effects_named = rw e once.effects_named;
}

pub IsOnce-effects :
    (v w : Service) (row : EffectRow)
    → IsOnce v
    → w.journal ≡ v.journal
    → w.effects ≡ v.effects ++ row ∷ []
    → count_effects row.source_event_id row.logical_effect_key v.effects ≡ 0
    → (row.effect_id == "") ≡ false
    → IsOnce w
IsOnce-effects v w row once j e fresh named = record {
  commands = λ k o. rw j (once.commands k o);
  effects = λ i k.
      rw (e, count_effects-append i k v.effects row)
        (ground (
          arith,
          once.effects i k,
          fresh,
          eq_iff row.source_event_id i,
          eq_iff row.logical_effect_key k,
        ));
  events_named = rw j once.events_named;
  effects_named = rw e (
      All-append (λ (r : EffectRow). (r.effect_id == "") ≡ false) v.effects (row ∷ [])
        once.effects_named (named, tt));
}

pub IsOnce-same :
    (v w : Service) → IsOnce v → w.journal ≡ v.journal → w.effects ≡ v.effects → IsOnce w
IsOnce-same v w once j e = record {
  commands = λ k o. rw j (once.commands k o);
  effects = λ i k. rw e (once.effects i k);
  events_named = rw j once.events_named;
  effects_named = rw e once.effects_named;
}
