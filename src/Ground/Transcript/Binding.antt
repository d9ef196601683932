-- ===== src/Ground/Transcript/Binding.antt =====
-- What an accepted transcript is bound to, and what it is not.
use mathlib.Core.List.{reverse, reverse-append, reverse-reverse, map-append}
use frontier_long_horizon_en.Prelude.{
  ℕ, String, ◌≡◌, refl, sym, ap, ◌∙◌, true, Option, none, some, List, [], ◌∷◌, ◌++◌, arith, eq_iff,
  map, Option-cases, inl, inr,
}
use frontier_long_horizon_en.Ground.Transcript.{
  Hashing, IsCollisionFree, Claim, Entry, Header, header, meta, step, StepBody, StepEntry, Payload,
  body_of, tagged, chain_of, steps, step_digest_of, mac, entry_is_authentic, verify_loop,
  chain_fits, digest_of, verify_transcript,
}
use frontier_long_horizon_en.Ground.Transcript.RoundTrip.{extend, verify_loop-append_step}

tagged_inj : (b b' : StepBody) (t t' : String) → tagged b t ≡ tagged b' t' → (b ≡ b') × (t ≡ t')
tagged_inj b b' t t' e = ground arith

module _ (h : Hashing) (c : Claim) (key : List ℕ) where
  -- The loop sees the steps alone.
  verify_loop-steps :
      (prev : String) (es : List Entry)
      → verify_loop h c key prev es ≡ verify_loop h c key prev (map step (steps es))
  unfolding verify_loop steps
  verify_loop-steps prev [] = refl
  verify_loop-steps prev (header d ∷ es) = verify_loop-steps prev es
  verify_loop-steps prev (meta k v ∷ es) = verify_loop-steps prev es
  verify_loop-steps prev (step e ∷ es) = ground (arith, verify_loop-steps e.step_digest es)

  -- Two transcripts with one header and the same step entries have one verdict, whatever `meta`
  -- entries stand between the steps.
  pub verify_transcript_ignores_meta :
      (d : Header) (es es' : List Entry)
      → steps es ≡ steps es'
      → verify_transcript h c key (header d ∷ es) ≡ verify_transcript h c key (header d ∷ es')
  unfolding verify_transcript
  verify_transcript_ignores_meta d es es' same =
      ground (arith, verify_loop-steps "genesis" es, verify_loop-steps "genesis" es', same)

  -- The loop returns the steps that it was given.
  verify_loop-found :
      (prev : String) (es : List Entry) (last : String) (found : List StepEntry)
      → verify_loop h c key prev es ≡ some (last, found)
      → found ≡ steps es
  unfolding verify_loop steps
  verify_loop-found prev [] last found e = ground arith
  verify_loop-found prev (header d ∷ es) last found e = verify_loop-found prev es last found e
  verify_loop-found prev (meta k v ∷ es) last found e = verify_loop-found prev es last found e
  verify_loop-found prev (step x ∷ es) last found e =
      elim (Option-cases (verify_loop h c key x.step_digest es)) [
        | inl rejected ↦ absurd (ground arith)
        | inr (r, accepted) ↦ ground (arith, verify_loop-found x.step_digest es r.0 r.1 accepted)
      ]

  newest_first : List StepEntry → List Entry
  newest_first xs = map step (reverse xs)

  newest_first-cons :
      (x : StepEntry) (xs : List StepEntry) → newest_first (x ∷ xs) ≡ newest_first xs ++ step x ∷ []
  unfolding newest_first
  newest_first-cons x xs =
      ap (map step) (reverse-append (x ∷ []) xs) ∙ map-append step (reverse xs) (x ∷ [])

  extend_inversion :
      (x : StepEntry) (o : Option (String × List StepEntry)) (last : String)
      (found : List StepEntry)
      → extend h c key x o ≡ some (last, found)
      → (prev : String) × (older : List StepEntry) × (o ≡ some (prev, older))
        × (entry_is_authentic h c key prev x ≡ true)
        × (last ≡ x.step_digest)
  extend_inversion x none last found e = absurd (ground arith)
  extend_inversion x (some (prev, older)) last found e =
      (prev, older, refl, ground arith, ground arith)

  opened :
      (x : StepEntry) (xs : List StepEntry) (last : String) (found : List StepEntry)
      → verify_loop h c key "genesis" (newest_first (x ∷ xs)) ≡ some (last, found)
      → (prev : String) × (older : List StepEntry) × (verify_loop h c key "genesis"
            (newest_first xs)
          ≡ some (prev, older))
        × (entry_is_authentic h c key prev x ≡ true)
        × (last ≡ x.step_digest)
  opened x xs last found e =
      extend_inversion x (verify_loop h c key "genesis" (newest_first xs)) last found
        (rw (newest_first-cons, verify_loop-append_step) at e)

  empty_last :
      (last : String) (found : List StepEntry)
      → verify_loop h c key "genesis" (newest_first []) ≡ some (last, found)
      → "genesis" ≡ last
  unfolding verify_loop newest_first
  empty_last last found e = ground arith

  -- What acceptance says of the steps: the loop ran through, and the chain tag covers its end.
  accepted_parts :
      (d : Header) (es : List Entry)
      → verify_transcript h c key (header d ∷ es) ≡ true
      → (last : String) × (verify_loop h c key "genesis" (newest_first (reverse (steps es)))
          ≡ some (last, steps es))
        × (d.chain_mac ≡ mac h key (chain_of c (digest_of h (steps es)) last))
  unfolding verify_transcript chain_fits
  accepted_parts d es a = elim (Option-cases (verify_loop h c key "genesis" es)) [
    | inl rejected ↦ absurd (ground arith)
    | inr ((last, found), accepted) ↦
        let all : found ≡ steps es = verify_loop-found "genesis" es last found accepted in
        let tag = mac h key (chain_of c (digest_of h found) last) in
        let signed : d.chain_mac ≡ tag = ground (arith, eq_iff tag d.chain_mac) in
        (
          last,
          unfold newest_first in rw (reverse-reverse, ← verify_loop-steps) (cc (accepted, all)),
          rw (← all) signed,
        )
  ]

  authentic_facts :
      (prev : String) (x : StepEntry)
      → entry_is_authentic h c key prev x ≡ true
      → (x.previous_step_digest ≡ prev)
        × (x.step_digest ≡ step_digest_of h x.body x.auth_tag)
        × (x.auth_tag ≡ mac h key (body_of x.body))
  unfolding entry_is_authentic
  authentic_facts prev x a =
      let expected = mac h key (body_of x.body) in
      let facts : (x.previous_step_digest ≡ prev)
          × (x.step_digest ≡ step_digest_of h x.body expected)
          × (x.auth_tag ≡ expected) =
        ground (
          arith,
          eq_iff expected x.auth_tag,
          eq_iff x.previous_step_digest prev,
          eq_iff x.step_digest (step_digest_of h x.body expected),
        ) in
      (facts.0, facts.1 ∙ ap (step_digest_of h x.body) (sym facts.2), facts.2)

  module _ (free : IsCollisionFree h) where
    step_digest_inj :
        (b b' : StepBody) (t t' : String)
        → step_digest_of h b t ≡ step_digest_of h b' t'
        → (b ≡ b') × (t ≡ t')
    unfolding step_digest_of
    step_digest_inj b b' t t' e =
        tagged_inj b b' t t' (free.canonical_inj _ _ (free.sha256_inj _ _ e))

    mac_inj : (x y : Payload) → mac h key x ≡ mac h key y → x ≡ y
    unfolding mac
    mac_inj x y e = free.canonical_inj _ _ (free.hmac_inj key _ _ e)

    chain_inj : (t t' last last' : String) → chain_of c t last ≡ chain_of c t' last' → last ≡ last'
    chain_inj t t' last last' e = ground arith

    not_genesis :
        (prev : String) (x : StepEntry)
        → entry_is_authentic h c key prev x ≡ true
        → x.step_digest ≡ "genesis"
        → ⊥
    unfolding step_digest_of
    not_genesis prev x a e = free.sha256-ne-genesis _ (sym (authentic_facts prev x a).1 ∙ e)

    same_entry :
        (x y : StepEntry) (u v : String)
        → entry_is_authentic h c key u x ≡ true
        → entry_is_authentic h c key v y ≡ true
        → x.step_digest ≡ y.step_digest
        → (x ≡ y) × (u ≡ v)
    same_entry x y u v ax ay e =
        let (px, dx, tx) = authentic_facts u x ax in
        let (py, dy, ty) = authentic_facts v y ay in
        let whole = step_digest_inj x.body y.body x.auth_tag y.auth_tag (sym dx ∙ e ∙ dy) in
        (cc (whole.0, whole.1, e), sym px ∙ ap (λ b. b.previous_step_digest) whole.0 ∙ py)

    chain_determines :
        (xs ys : List StepEntry) (last last' : String) (found found' : List StepEntry)
        → last ≡ last'
        → verify_loop h c key "genesis" (newest_first xs) ≡ some (last, found)
        → verify_loop h c key "genesis" (newest_first ys) ≡ some (last', found')
        → xs ≡ ys
    chain_determines [] [] last last' found found' e hx hy = refl
    chain_determines [] (y ∷ ys) last last' found found' e hx hy =
        let (v, _, _, ay, ly) = opened y ys last' found' hy in
        absurd (not_genesis v y ay (sym ly ∙ sym e ∙ sym (empty_last last found hx)))
    chain_determines (x ∷ xs) [] last last' found found' e hx hy =
        let (u, _, _, ax, lx) = opened x xs last found hx in
        absurd (not_genesis u x ax (sym lx ∙ e ∙ sym (empty_last last' found' hy)))
    chain_determines (x ∷ xs) (y ∷ ys) last last' found found' e hx hy =
        let (u, older, hx', ax, lx) = opened x xs last found hx in
        let (v, older', hy', ay, ly) = opened y ys last' found' hy in
        let (same, linked) = same_entry x y u v ax ay (sym lx ∙ e ∙ ly) in
        let rest = chain_determines xs ys u v older older' linked hx' hy' in cc (same, rest)

    -- If hashes, tags and printed texts are without collisions and no digest is the word
    -- `genesis`: of two transcripts that are accepted under one claim and key and have one chain
    -- tag, the step entries are the same, in the same order.
    pub chain_mac_binds_steps :
        (d d' : Header) (es es' : List Entry)
        → verify_transcript h c key (header d ∷ es) ≡ true
        → verify_transcript h c key (header d' ∷ es') ≡ true
        → d.chain_mac ≡ d'.chain_mac
        → steps es ≡ steps es'
    chain_mac_binds_steps d d' es es' ok ok' e =
        let (last, run, tag) = accepted_parts d es ok in
        let (last', run', tag') = accepted_parts d' es' ok' in
        let ends =
          chain_inj (digest_of h (steps es)) (digest_of h (steps es')) last last'
            (mac_inj _ _ (sym tag ∙ e ∙ tag')) in
        let reversed =
          chain_determines (reverse (steps es)) (reverse (steps es')) last last' (steps es)
            (steps es') ends run run' in
        sym (reverse-reverse (steps es)) ∙ ap reverse reversed ∙ reverse-reverse (steps es')
