-- ===== src/Ground/Transcript/RoundTrip.antt =====
-- What is recorded by `add_step` and `add_meta` is accepted by `verify_transcript`.
use frontier_long_horizon_en.Prelude.{
  ℕ, String, ◌≡◌, refl, ap, true, not, Option, none, some, List, [], ◌∷◌, ◌++◌, nat_eq,
  if◌then◌else◌, arith, eq_refl,
}
use frontier_long_horizon_en.Ground.Transcript.{
  Hashing, Claim, Transcript, Entry, header, meta, step, StepEntry, StepArguments, new_transcript,
  steps, entry_for, add_step, add_meta, to_list, entry_is_authentic, verify_loop, header_fits,
  chain_fits, chain_mac, verify_transcript,
}

-- A call of the recording interface.
pub data Call : Type 0 where
  step_call : StepArguments → Call
  meta_call : String → String → Call

pub steps-append_step :
    (es : List Entry) (e : StepEntry) → steps (es ++ step e ∷ []) ≡ steps es ++ e ∷ []
unfolding steps
steps-append_step [] e = refl
steps-append_step (header d ∷ es) e = steps-append_step es e
steps-append_step (meta k v ∷ es) e = steps-append_step es e
steps-append_step (step x ∷ es) e = ap (λ l. x ∷ l) (steps-append_step es e)

pub steps-append_meta : (es : List Entry) (k v : String) → steps (es ++ meta k v ∷ []) ≡ steps es
unfolding steps
steps-append_meta [] k v = refl
steps-append_meta (header d ∷ es) k v = steps-append_meta es k v
steps-append_meta (meta _ _ ∷ es) k v = steps-append_meta es k v
steps-append_meta (step x ∷ es) k v = ap (λ l. x ∷ l) (steps-append_meta es k v)

nat_eq_refl : (n : ℕ) → nat_eq n n ≡ true
nat_eq_refl n = ground arith

module _ (h : Hashing) where
  -- Makes one call, and a list of calls from the left.
  unfoldable pub call : Transcript → Call → Transcript
  call t (step_call x) = add_step h x t
  call t (meta_call k v) = add_meta h k v t

  unfoldable pub record_all : List Call → Transcript → Transcript
  unfolding call
  record_all [] t = t
  record_all (x ∷ xs) t = record_all xs (call t x)

  module _ (c : Claim) (key : List ℕ) where
    -- What the loop makes of one more step at the end.
    abbrev pub extend :
        StepEntry → Option (String × List StepEntry) → Option (String × List StepEntry)
    extend e none = none
    extend e (some (last, found)) =
        if not (entry_is_authentic h c key last e)
        then none
        else some (e.step_digest, found ++ e ∷ [])

    pub verify_loop-append_step :
        (prev : String) (es : List Entry) (e : StepEntry)
        → verify_loop h c key prev (es ++ step e ∷ []) ≡ extend e (verify_loop h c key prev es)
    unfolding verify_loop
    verify_loop-append_step prev [] e = refl
    verify_loop-append_step prev (header d ∷ es) e = verify_loop-append_step prev es e
    verify_loop-append_step prev (meta k v ∷ es) e = verify_loop-append_step prev es e
    verify_loop-append_step prev (step x ∷ es) e =
        ground (arith, verify_loop-append_step x.step_digest es e)

    verify_loop-append_meta :
        (prev : String) (es : List Entry) (k v : String)
        → verify_loop h c key prev (es ++ meta k v ∷ []) ≡ verify_loop h c key prev es
    unfolding verify_loop
    verify_loop-append_meta prev [] k v = refl
    verify_loop-append_meta prev (header d ∷ es) k v = verify_loop-append_meta prev es k v
    verify_loop-append_meta prev (meta _ _ ∷ es) k v = verify_loop-append_meta prev es k v
    verify_loop-append_meta prev (step x ∷ es) k v =
        ground (arith, verify_loop-append_meta x.step_digest es k v)

  -- The loop of the verifier accepts the entries, and ends where the recorder stands.
  unfoldable pub IsChained : Transcript → Type 0
  IsChained t =
      verify_loop h t.claim t.hmac_key "genesis" t.entries ≡ some (t.prev_digest, steps t.entries)

  entry_for-is_authentic :
      (t : Transcript) (x : StepArguments)
      → entry_is_authentic h t.claim t.hmac_key t.prev_digest (entry_for h t x) ≡ true
  unfolding entry_is_authentic entry_for
  entry_for-is_authentic t x = simp (eq_refl, nat_eq_refl)

  pub call-IsChained : (t : Transcript) (x : Call) → IsChained t → IsChained (call t x)
  unfolding call IsChained add_step add_meta
  call-IsChained t (step_call x) chained =
      simp (steps-append_step, verify_loop-append_step, chained, entry_for-is_authentic t x)
  call-IsChained t (meta_call k v) chained = rw (steps-append_meta, verify_loop-append_meta) chained

  record_all-IsChained :
      (xs : List Call) (t : Transcript) → IsChained t → IsChained (record_all xs t)
  unfolding record_all
  record_all-IsChained [] t chained = chained
  record_all-IsChained (x ∷ xs) t chained =
      record_all-IsChained xs (call t x) (call-IsChained t x chained)

  claim-record_all :
      (xs : List Call) (t : Transcript)
      → ((record_all xs t).claim ≡ t.claim) × ((record_all xs t).hmac_key ≡ t.hmac_key)
  unfolding record_all call add_step add_meta
  claim-record_all [] t = (refl, refl)
  claim-record_all (step_call x ∷ xs) t = claim-record_all xs (call t (step_call x))
  claim-record_all (meta_call k v ∷ xs) t = claim-record_all xs (call t (meta_call k v))

  pub accepted_if_chained :
      (t : Transcript) → IsChained t → verify_transcript h t.claim t.hmac_key (to_list h t) ≡ true
  unfolding verify_transcript to_list header_fits chain_fits IsChained chain_mac
  accepted_if_chained t chained = rw (chained, chain_fits) (simp (eq_refl, nat_eq_refl))

  -- Whatever calls of `add_step` and `add_meta` record an episode, in whatever order, its finished
  -- transcript is accepted under the claim and the key that it was begun with.
  pub verify_transcript-to_list :
      (version : String) (c : Claim) (key : List ℕ) (calls : List Call)
      → verify_transcript h c key (to_list h (record_all calls (new_transcript version c key)))
        ≡ true
  unfolding verify_loop IsChained steps
  verify_transcript-to_list version c key calls =
      let start = new_transcript version c key in
      let t = record_all calls start in
      let (same, keyed) = claim-record_all calls start in
      let accepted = accepted_if_chained t (record_all-IsChained calls start refl) in
      cc (same, keyed, accepted)
