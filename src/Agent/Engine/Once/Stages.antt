-- ===== src/Agent/Engine/Once/Stages.antt =====
-- What the store methods of src/agent_surface/runtime.py, and the repaired stages of
-- src/training_ground/policies.py, do to the rows of the journal and of the effects.
use Prim.Native.String.{◌++◌ as append_text}
use Prim.Native.String.append
use Prim.Native.String.compare
use mathlib.Core.Path.{ap, ◌∙◌}
use text.Mathlib.Text.{is_eq}
use frontier_long_horizon_en.Prelude.{
  ℕ, String, ◌≡◌, refl, false, Option, none, some, err, arith, ◌==◌, lookup, insert, Option-cases,
  inl, inr,
}
use frontier_long_horizon_en.Prelude.Exec.{gets, modify}
use frontier_long_horizon_en.Substrate.Canonical.{Primitives}
use frontier_long_horizon_en.Agent.Runtime.{
  Command, Event, integrity_error, Run, M, logical_key, find_command, effects_by_key, earliest,
}
use frontier_long_horizon_en.Agent.Methods.{
  log_line, service_of, attempt_of, advance_run, append_trace, reject_conflicting_payload, prepare,
  append, register, load, settle, advance_cursor, get_event_id, effect_by_key, restart,
  insert_journal, insert_effect, s2_cutpoint, s5_cutpoint, transient_gate, journal_row, effect_row,
  new_event_id, new_effect_id,
}
use frontier_long_horizon_en.Agent.Flow.{logical_identity_flow, identity_s2, identity_s5}
use frontier_long_horizon_en.Agent.Engine.Kept.{After, After-bind, KeptBy, if_holds}
use frontier_long_horizon_en.Agent.Engine.Once.{
  IsOnce, find_command-none, find_command-named, earliest-none, earliest-named, IsOnce-journal,
  IsOnce-effects, IsOnce-same,
}

-- An id has its prefix, so it is not empty.
event_id_is_not_empty : (x : String) → (append_text "evt_" x == "") ≡ false
event_id_is_not_empty x =
    ap (λ z. z == "") (append.cons "e" "vt_" x)
    ∙ ap is_eq (compare.cons-nil "e" (append_text "vt_" x))

effect_id_is_not_empty : (x : String) → (append_text "efx_" x == "") ≡ false
effect_id_is_not_empty x =
    ap (λ z. z == "") (append.cons "e" "fx_" x)
    ∙ ap is_eq (compare.cons-nil "e" (append_text "fx_" x))

abbrev pub OnceIn : Run → Type 0
OnceIn r = IsOnce (service_of r)

-- The command has no row, or the event no effect under its key.
abbrev Fresh : Command → Run → Type 0
Fresh c r =
    IsOnce (service_of r)
    × (find_command c.command_key c.occurrence_id (service_of r).journal ≡ none)

abbrev Unsettled : Event → Run → Type 0
Unsettled e r =
    IsOnce (service_of r)
    × (earliest (effects_by_key e.event_id (logical_key e) (service_of r).effects) ≡ none)

-- A stage that leaves both tables as they are.
record Same {A : Type 0} (m : M A) : Type 0 where
  journal : (r : Run) → (service_of (m r).1).journal ≡ (service_of r).journal
  effects : (r : Run) → (service_of (m r).1).effects ≡ (service_of r).effects

Same-Once : {A : Type 0} (m : M A) → Same m → After OnceIn m OnceIn
Same-Once m same = record {
  at = λ r h. IsOnce-same (service_of r) (service_of (m r).1) h (same.journal r) (same.effects r);
}

Same-Fresh : {A : Type 0} (c : Command) (m : M A) → Same m → After (Fresh c) m (Fresh c)
Same-Fresh c m same = record { at = λ r h. ((Same-Once m same).at r h.0, rw (same.journal r) h.1) }

Same-Unsettled : {A : Type 0} (e : Event) (m : M A) → Same m → After (Unsettled e) m (Unsettled e)
Same-Unsettled e m same = record {
  at = λ r h. ((Same-Once m same).at r h.0, rw (same.effects r) h.1);
}

module _ (p : Primitives) where
  advance_run-Same : Same advance_run
  unfolding advance_run
  advance_run-Same = record { journal = λ r. refl; effects = λ r. refl }

  append_trace-Same : (s : String) (i k o : Option String) → Same (append_trace p s i k o)
  unfolding append_trace
  append_trace-Same s i k o = record { journal = λ r. refl; effects = λ r. refl }

  reject-Same : (c : Command) → Same (reject_conflicting_payload p c)
  unfolding reject_conflicting_payload
  reject-Same c = record { journal = λ r. ground arith; effects = λ r. ground arith }

  s2_cutpoint-Same : (c : Command) (i : String) → Same (s2_cutpoint p c i)
  unfolding s2_cutpoint
  s2_cutpoint-Same c i = record { journal = λ r. ground arith; effects = λ r. ground arith }

  s5_cutpoint-Same : (e : Event) (i : String) → Same (s5_cutpoint p e i)
  unfolding s5_cutpoint
  s5_cutpoint-Same e i = record { journal = λ r. ground arith; effects = λ r. ground arith }

  transient_gate-Same : (e : Event) (n : ℕ) → Same (transient_gate p e n)
  unfolding transient_gate
  transient_gate-Same e n = record { journal = λ r. ground arith; effects = λ r. ground arith }

  prepare-Same : (c : Command) → Same (prepare p c)
  unfolding prepare
  prepare-Same c = record { journal = λ r. ground arith; effects = λ r. ground arith }

  register-Same : (c : Command) (i : String) → Same (register p c i)
  unfolding register reject_conflicting_payload
  register-Same c i = record { journal = λ r. ground arith; effects = λ r. ground arith }

  load-Same : (i : String) → Same (load p i)
  unfolding load
  load-Same i = record { journal = λ r. ground arith; effects = λ r. ground arith }

  cursor-Same : (n : ℕ) → Same (advance_cursor p n)
  unfolding advance_cursor
  cursor-Same n = record { journal = λ r. ground arith; effects = λ r. ground arith }

  restart-Same : Same (restart p)
  unfolding restart
  restart-Same = record { journal = λ r. ground arith; effects = λ r. ground arith }

  insert_journal-Fresh : (c : Command) (n : ℕ) → After (Fresh c) (insert_journal p c n) OnceIn
  unfolding insert_journal new_event_id
  insert_journal-Fresh c n = record {
    at = λ r h.
        if_holds OnceIn _ (err integrity_error, r) _ h.0
          (IsOnce-journal (service_of r) _ (journal_row p c n r) h.0 refl refl
            (find_command-none c.command_key c.occurrence_id (service_of r).journal h.1)
            (event_id_is_not_empty _));
  }

  insert_effect-Unsettled : (e : Event) (n : ℕ) → After (Unsettled e) (insert_effect p e n) OnceIn
  unfolding insert_effect new_effect_id
  insert_effect-Unsettled e n = record {
    at = λ r h.
        if_holds OnceIn _ (err integrity_error, r) _ h.0
          (IsOnce-effects (service_of r) _ (effect_row p e n r) h.0 refl refl
            (earliest-none e.event_id (logical_key e) (service_of r).effects h.1)
            (effect_id_is_not_empty _));
  }

  once : (r : Run) → OnceIn r → OnceIn r
  once r h = h

  append-Fresh : (c : Command) → After (Fresh c) (append p c) OnceIn
  unfolding append
  append-Fresh c =
      After-bind (Fresh c) (Fresh c) OnceIn _ _ (Same-Fresh c _ advance_run-Same) (λ r h. h.0)
        (λ tick.
          After-bind (Fresh c) (Fresh c) OnceIn _ _ (Same-Fresh c _ (reject-Same c)) (λ r h. h.0)
            (λ _. After-bind (Fresh c) OnceIn OnceIn _ _ (insert_journal-Fresh c tick) once (λ i.
              After-bind OnceIn OnceIn OnceIn _ _
                (Same-Once _
                  (append_trace-Same "s2" (some i) (some c.command_key) (some c.occurrence_id)))
                once (λ _. Same-Once _ (s2_cutpoint-Same c i)))))

  settle-Unsettled : (e : Event) → After (Unsettled e) (settle p e) OnceIn
  unfolding settle
  settle-Unsettled e =
      After-bind (Unsettled e) (Unsettled e) OnceIn
        (gets (λ r. attempt_of (lookup e.event_id r.attempts))) _ (record { at = λ r h. h })
        (λ r h. h.0)
        (λ n.
          After-bind (Unsettled e) (Unsettled e) OnceIn
            (modify (λ r. record r { attempts = insert e.event_id n r.attempts })) _
            (record { at = λ r h. h }) (λ r h. h.0)
            (λ _.
              After-bind (Unsettled e) (Unsettled e) OnceIn _ _
                (Same-Unsettled e _ advance_run-Same) (λ r h. h.0)
                (λ tick.
                  After-bind (Unsettled e) (Unsettled e) OnceIn _ _
                    (Same-Unsettled e _ (transient_gate-Same e n)) (λ r h. h.0)
                    (λ _.
                      After-bind (Unsettled e) OnceIn OnceIn _ _ (insert_effect-Unsettled e tick)
                        once
                        (λ i.
                          After-bind OnceIn OnceIn OnceIn _ _
                            (Same-Once _ (
                              append_trace-Same "s5" (some e.event_id) (some e.command_key)
                                (some e.occurrence_id)))
                            once (λ _. Same-Once _ (s5_cutpoint-Same e i)))))))

  identity_s2-Once : (c : Command) → After OnceIn (identity_s2 p c) OnceIn
  unfolding identity_s2 get_event_id
  identity_s2-Once c = record {
    at = λ r h.
        elim (Option-cases (find_command c.command_key c.occurrence_id (service_of r).journal)) [
          | inl e ↦ rw e ((append-Fresh c).at r (h, e))
          | inr (q, e) ↦
              rw
                (
                  e,
                  find_command-named c.command_key c.occurrence_id (service_of r).journal q
                      h.events_named e,
                )
                h
        ];
  }

  identity_s5-Once : (e : Event) → After OnceIn (identity_s5 p e) OnceIn
  unfolding identity_s5 effect_by_key
  identity_s5-Once e = record {
    at = λ r h.
        elim (Option-cases
          (earliest (effects_by_key e.event_id (logical_key e) (service_of r).effects))) [
            | inl n ↦ rw n ((settle-Unsettled e).at r (h, n))
            | inr (q, n) ↦
                rw
                  (
                    n,
                    earliest-named e.event_id (logical_key e) (service_of r).effects q
                        h.effects_named n,
                  )
                  h
          ];
  }

  prepare-Once : (c : Command) → After OnceIn (prepare p c) OnceIn
  prepare-Once c = Same-Once (prepare p c) (prepare-Same c)

  register-Once : (c : Command) (i : String) → After OnceIn (register p c i) OnceIn
  register-Once c i = Same-Once (register p c i) (register-Same c i)

  load-Once : (i : String) → After OnceIn (load p i) OnceIn
  load-Once i = Same-Once (load p i) (load-Same i)

  cursor-Once : (n : ℕ) → After OnceIn (advance_cursor p n) OnceIn
  cursor-Once n = Same-Once (advance_cursor p n) (cursor-Same n)

  log_line-Once : (line : String) → After OnceIn (log_line line) OnceIn
  unfolding log_line
  log_line-Once line = record { at = λ r h. h }

  restart-Once : After OnceIn (restart p) OnceIn
  restart-Once = Same-Once (restart p) restart-Same

  pub logical_identity_flow-KeepsOnce : KeptBy OnceIn p (logical_identity_flow p)
  unfolding logical_identity_flow
  logical_identity_flow-KeepsOnce = record {
    k1 = prepare-Once;
    k2 = identity_s2-Once;
    k3 = register-Once;
    k4 = load-Once;
    k5 = identity_s5-Once;
    k6 = cursor-Once;
    log = log_line-Once;
    restarts = restart-Once;
    loads = load-Once;
  }
