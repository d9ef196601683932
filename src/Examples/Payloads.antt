-- ===== src/Examples/Payloads.antt =====
-- Encodings of what src/training_ground/transcripts.py serialises.
use frontier_long_horizon_en.Prelude.{
  ℕ, zero, suc, String, ◌≡◌, refl, Option, none, some, List, [], ◌∷◌,
}
use frontier_long_horizon_en.Ground.Transcript.{
  StepBody, StepEntry, Claim, Payload, body_of, tagged, steps_of, chain_of,
}
use frontier_long_horizon_en.Examples.Codec.{
  Codec, then, number, boolean, text, pair, along, listed,
}

step_body : Codec StepBody
step_body =
    along
      (λ x. record {
        sequence = x.0;
        fake_tick = x.1.0;
        tool = x.1.1.0;
        canonical_arguments_digest = x.1.1.1.0;
        success_error_code = x.1.1.1.1.0;
        bounded_public_result_digest = x.1.1.1.1.1.0;
        reward_delta = x.1.1.1.1.1.1.0;
        terminated = x.1.1.1.1.1.1.1.0;
        truncated = x.1.1.1.1.1.1.1.1.0;
        cumulative_action_count = x.1.1.1.1.1.1.1.1.1.0;
        request_bytes = x.1.1.1.1.1.1.1.1.1.1.0;
        response_bytes = x.1.1.1.1.1.1.1.1.1.1.1.0;
        session_id = x.1.1.1.1.1.1.1.1.1.1.1.1.0;
        instance_id = x.1.1.1.1.1.1.1.1.1.1.1.1.1.0;
        split = x.1.1.1.1.1.1.1.1.1.1.1.1.1.1.0;
        seed = x.1.1.1.1.1.1.1.1.1.1.1.1.1.1.1.0;
        profile_binding = x.1.1.1.1.1.1.1.1.1.1.1.1.1.1.1.1.0;
        previous_step_digest = x.1.1.1.1.1.1.1.1.1.1.1.1.1.1.1.1.1;
      })
      (λ r. (
        r.sequence,
        (
          r.fake_tick,
          (
            r.tool,
            (
              r.canonical_arguments_digest,
              (
                r.success_error_code,
                (
                  r.bounded_public_result_digest,
                  (
                    r.reward_delta,
                    (
                      r.terminated,
                      (
                        r.truncated,
                        (
                          r.cumulative_action_count,
                          (
                            r.request_bytes,
                            (
                              r.response_bytes,
                              (
                                r.session_id,
                                (
                                  r.instance_id,
                                  (r.split, (r.seed, (r.profile_binding, r.previous_step_digest))),
                                ),
                              ),
                            ),
                          ),
                        ),
                      ),
                    ),
                  ),
                ),
              ),
            ),
          ),
        ),
      ))
      (λ r. refl)
      (pair number (
        pair number (
          pair text (
            pair text (
              pair text (
                pair text (
                  pair number (
                    pair boolean (
                      pair boolean (
                        pair number (
                          pair number (
                            pair number (
                              pair text
                                (pair text (pair text (pair number (pair text text)))))))))))))))))

claim : Codec Claim
claim =
    along
      (λ x. record {
        session_id = x.0;
        instance_id = x.1.0;
        split = x.1.1.0;
        seed = x.1.1.1.0;
        profile_binding = x.1.1.1.1;
      })
      (λ r. (r.session_id, (r.instance_id, (r.split, (r.seed, r.profile_binding))))) (λ r. refl)
      (pair text (pair text (pair text (pair number text))))

step_entry : Codec StepEntry
step_entry =
    along (λ x. record { body = x.0; auth_tag = x.1.0; step_digest = x.1.1 })
      (λ r. (r.body, (r.auth_tag, r.step_digest))) (λ r. refl) (pair step_body (pair text text))

body_of_codec : Codec (StepBody)
body_of_codec = step_body

tagged_codec : Codec (StepBody × String)
tagged_codec = pair step_body text

steps_of_codec : Codec (List StepEntry)
steps_of_codec = listed step_entry

chain_of_codec : Codec (Claim × (String × String))
chain_of_codec = pair claim (pair text text)

payload_put : Payload → List ℕ → List ℕ
payload_put (body_of a) rest = 0 ∷ (body_of_codec).put a rest
payload_put (tagged a b) rest = 1 ∷ (tagged_codec).put (a, b) rest
payload_put (steps_of a) rest = 2 ∷ (steps_of_codec).put a rest
payload_put (chain_of a b c) rest = 3 ∷ (chain_of_codec).put (a, (b, c)) rest

payload_get : List ℕ → Option (Payload × List ℕ)
payload_get [] = none
payload_get (zero ∷ l) = then ((body_of_codec).get l) (λ x rest. some (body_of x, rest))
payload_get (suc zero ∷ l) = then ((tagged_codec).get l) (λ x rest. some (tagged x.0 x.1, rest))
payload_get (suc (suc zero) ∷ l) = then ((steps_of_codec).get l) (λ x rest. some (steps_of x, rest))
payload_get (suc (suc (suc zero)) ∷ l) =
    then ((chain_of_codec).get l) (λ x rest. some (chain_of x.0 x.1.0 x.1.1, rest))
payload_get (_ ∷ _) = none

payload_back : (d : Payload) (rest : List ℕ) → payload_get (payload_put d rest) ≡ some (d, rest)
unfolding payload_put payload_get
payload_back (body_of a) rest = rw ((body_of_codec).get-put a rest) refl
payload_back (tagged a b) rest = rw ((tagged_codec).get-put (a, b) rest) refl
payload_back (steps_of a) rest = rw ((steps_of_codec).get-put a rest) refl
payload_back (chain_of a b c) rest = rw ((chain_of_codec).get-put (a, (b, c)) rest) refl

pub payload : Codec Payload
payload = record { put = payload_put; get = payload_get; get-put = payload_back }
