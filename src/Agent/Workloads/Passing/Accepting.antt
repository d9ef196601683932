-- ===== src/Agent/Workloads/Passing/Accepting.antt =====
-- The repaired flow accepts the command of a workload on empty tables (src/agent_surface/runtime.py).
use frontier_long_horizon_en.Prelude.{
  ℕ, ◌+◌, String, ◌≡◌, refl, Bool, false, some, List, [], ◌∷◌, Result, ok, err, eq_refl, ap,
}
use frontier_long_horizon_en.Prelude.Exec.{pure}
use frontier_long_horizon_en.Substrate.Tables.{JournalRow, EffectRow}
use frontier_long_horizon_en.Substrate.Canonical.{Primitives}
use frontier_long_horizon_en.Agent.Runtime.{
  Run, Stop, Command, M, ◌>>=◌, ◌>>◌, find_event, replace_key,
}
use frontier_long_horizon_en.Agent.Methods.{
  payload_hash, append, register, prepare, conflicts, new_event_id, reject_conflicting_payload,
  advance_run, update_service, append_trace, get_event_id,
}
use frontier_long_horizon_en.Agent.Flow.{logical_identity_flow, accept}
use frontier_long_horizon_en.Agent.Engine.{accept_command, after_accept}
use frontier_long_horizon_en.Agent.Workloads.{accept_all, log_accepted}

-- A run with these tables and counters, whatever else it holds.
abbrev pub put : List JournalRow → List EffectRow → ℕ → List (String × ℕ) → Bool → Run → Run
put rows effects n attempts transient r = record r {
  store = record r.store {
    service = record r.store.service { journal = rows; effects = effects; committed_seq = n };
  };
  attempts = attempts;
  s2_cutpoint_pending = false;
  s5_cutpoint_pending = false;
  transient_pending = transient;
}

-- A step that returns, in front of what follows.
pub then_ok :
    {A B : Type 0} (m : M A) (k : A → M B) (r r' : Run) (a : A)
    → m r ≡ (ok a, r')
    → (m >>= k) r ≡ k a r'
then_ok m k r r' a e = ap (λ x. ((λ _. x) >>= k) r) e

pub then_err :
    {A B : Type 0} (m : M A) (k : A → M B) (r r' : Run) (e : Stop)
    → m r ≡ (err e, r')
    → (m >>= k) r ≡ (err e, r')
then_err m k r r' e h = ap (λ x. ((λ _. x) >>= k) r) h

module _ (p : Primitives) where
  unfoldable pub row_at : ℕ → Command → Run → JournalRow
  row_at tick c r = record {
    seq = 1;
    event_id = new_event_id p c.command_key c.occurrence_id tick r.workload_id;
    command_key = c.command_key;
    occurrence_id = c.occurrence_id;
    payload_hash = payload_hash p c;
    accepted_tick = tick;
  }

  module _ (c : Command) (tick : ℕ) (s : Run) where
    unfoldable pub row : JournalRow
    row = row_at tick c s

    agrees : conflicts p c (row ∷ []) ≡ false
    unfolding conflicts row row_at
    agrees =
        rw (conflicts, eq_refl c.command_key, eq_refl c.occurrence_id, eq_refl (payload_hash p c))
          refl

    rejects_none :
        (es : List EffectRow) (n : ℕ) (ats : List (String × ℕ)) (b : Bool) (r : Run)
        → reject_conflicting_payload p c (put (row ∷ []) es n ats b r)
          ≡ (ok tt, put (row ∷ []) es n ats b r)
    unfolding reject_conflicting_payload
    rejects_none es n ats b r = rw (reject_conflicting_payload, agrees) refl

    pub found : find_event row.event_id (row ∷ []) ≡ some row
    unfolding find_event
    found = rw (find_event, eq_refl row.event_id) refl

    registers :
        (n : ℕ) (b : Bool) (r : Run) (i : String)
        → (r' : Run) × (register p c i (put (row ∷ []) [] n [] b r)
            ≡ (ok tt, put (row ∷ []) [] n [] b r'))
    unfolding register
    registers n b r i =
        let r1 = (advance_run (put (row ∷ []) [] n [] b r)).1 in
        let rest : Unit {0} → M (Unit {0}) = λ _. (do
          update_service (λ v. record v {
            command_keys =
                replace_key
                  (record {
                    command_key = c.command_key;
                    occurrence_id = c.occurrence_id;
                    event_id = i;
                    state = "registered";
                  })
                  v.command_keys;
          })
          append_trace p "s3" (some i) (some c.command_key) (some c.occurrence_id)) in
        (
          (rest tt r1).1,
          then_ok (reject_conflicting_payload p c) rest r1 r1 tt (rejects_none [] n [] b r1),
        )

  appends :
      (r : Run) (n : ℕ) (b : Bool) (c : Command)
      → (r' : Run) × (append p c (put [] [] n [] b r) ≡ (
        ok (row_at (r.store.fake_tick + 1) c r).event_id,
        put (row_at (r.store.fake_tick + 1) c r ∷ []) [] n [] b r',
      ))
  unfolding append row_at
  appends r n b c = ((append p c (put [] [] n [] b r)).1, refl)

  module _ (c : Command) where
    accepts :
        (n : ℕ) (b : Bool) (r : Run)
        → (tick : ℕ) × (r' : Run) × (accept (logical_identity_flow p) c (put [] [] n [] b r)
            ≡ (ok (row c tick r).event_id, put (row c tick r ∷ []) [] n [] b r'))
    unfolding accept logical_identity_flow append row row_at register prepare get_event_id
    accepts n b r =
        let tick = r.store.fake_tick + 1 + 1 in
        let id = (row c tick r).event_id in
        let r2 = (append p c (prepare p c (put [] [] n [] b r)).1).1 in
        let (r3, e) = registers c tick r n b r2 id in
        (
          tick,
          r3,
          then_ok (register p c id) (λ _. pure id) r2 (put (row c tick r ∷ []) [] n [] b r3) tt e,
        )

    concluded : Command → Result Stop String × Run → Result Stop String × Run
    concluded c x = elim x.0 [
      | ok i ↦ (ok i, x.1)
      | err e ↦ after_accept (logical_identity_flow p) c e x.1
    ]

    accepts_command :
        (n : ℕ) (b : Bool) (r : Run)
        → (tick : ℕ) × (r' : Run) × (accept_command (logical_identity_flow p) c (put [] [] n [] b r)
            ≡ (ok (row c tick r).event_id, put (row c tick r ∷ []) [] n [] b r'))
    unfolding accept_command concluded
    accepts_command n b r = let (tick, r', e) = accepts n b r in (tick, r', ap (concluded c) e)

    pub accepts_all :
        (n : ℕ) (b : Bool) (r : Run)
        → (tick : ℕ) × (r' : Run) × (accept_all p
              (logical_identity_flow p)
              (c ∷ [])
              (put [] [] n [] b r)
            ≡ (ok ((row c tick r).event_id ∷ []), put (row c tick r ∷ []) [] n [] b r'))
    unfolding accept_all
    accepts_all n b r =
        let (tick, r', e) = accepts_command n b r in
        let f = logical_identity_flow p in
        let rest : String → M (List String) =
          λ i. (do log_accepted p f; rest ← accept_all p f []; pure (i ∷ rest)) in
        let given = put (row c tick r ∷ []) [] n [] b r' in
        (
          tick,
          (log_accepted p f given).1,
          then_ok (accept_command f c) rest (put [] [] n [] b r) given (row c tick r).event_id e,
        )
