-- ===== src/Ground/Transcript.antt =====
-- src/training_ground/transcripts.py: the append-only, authenticated record of an episode. The
-- hash functions and the JSON encoder are parameters. Proofs are in the modules below.
pub mod RoundTrip
pub mod Binding
use frontier_long_horizon_en.Prelude.{
  ℕ, String, ◌≡◌, Bool, false, not, ◌&&◌, Option, none, some, List, [], ◌∷◌, ◌++◌, nat_eq, ◌==◌,
  if◌then◌else◌, take_text,
}

-- The dictionary `body` of a step, which is what its tag covers.
pub record StepBody : Type 0 where
  pub sequence : ℕ
  pub fake_tick : ℕ
  pub tool : String
  pub canonical_arguments_digest : String
  pub success_error_code : String
  pub bounded_public_result_digest : String
  -- the only value that is recorded is 0.0
  pub reward_delta : ℕ
  pub terminated : Bool
  pub truncated : Bool
  pub cumulative_action_count : ℕ
  pub request_bytes : ℕ
  pub response_bytes : ℕ
  pub session_id : String
  pub instance_id : String
  pub split : String
  pub seed : ℕ
  pub profile_binding : String
  pub previous_step_digest : String

pub record StepEntry : Type 0 where
  pub body : StepBody
  pub open body use *
  pub auth_tag : String
  pub step_digest : String

-- The first entry of a finished transcript.
pub record Header : Type 0 where
  pub environment_version : String
  pub instance_id : String
  pub split : String
  pub seed : ℕ
  pub session_id : String
  pub profile_binding : String
  pub transcript_digest : String
  pub chain_mac : String

-- An entry of a list that is to be verified. A `meta` entry has a key and the text of its value.
pub data Entry : Type 0 where
  header : Header → Entry
  meta : String → String → Entry
  step : StepEntry → Entry

-- The identity that a transcript is bound to.
pub record Claim : Type 0 where
  pub session_id : String
  pub instance_id : String
  pub split : String
  pub seed : ℕ
  pub profile_binding : String

-- What `_canonical` is called on.
pub data Payload : Type 0 where
  body_of : StepBody → Payload
  -- `{**body, "auth_tag": tag}`
  tagged : StepBody → String → Payload
  steps_of : List StepEntry → Payload
  -- the dictionary of `chain_mac`, with `transcript_digest` and `final_prev`
  chain_of : Claim → String → String → Payload

-- hashlib, hmac and json.
pub record Hashing : Type 0 where
  pub sha256 : List ℕ → String
  pub hmac_sha256 : List ℕ → List ℕ → String
  pub canonical : Payload → List ℕ

-- Under one key no two texts have one tag, no two texts have one digest, no two payloads have one
-- text, and a digest, 64 hexadecimal digits, is not the word that begins a chain.
pub record IsCollisionFree (h : Hashing) : Type 0 where
  pub sha256_inj : (a b : List ℕ) → h.sha256 a ≡ h.sha256 b → a ≡ b
  pub sha256-ne-genesis : (a : List ℕ) → h.sha256 a ≡ "genesis" → ⊥
  pub hmac_inj : (k a b : List ℕ) → h.hmac_sha256 k a ≡ h.hmac_sha256 k b → a ≡ b
  pub canonical_inj : (a b : Payload) → h.canonical a ≡ h.canonical b → a ≡ b

-- `Transcript`: the fields that stay, and the two that grow.
pub record Transcript : Type 0 where
  pub version : String
  pub claim : Claim
  pub open claim use *
  pub hmac_key : List ℕ
  pub entries : List Entry
  pub prev_digest : String

abbrev pub new_transcript : String → Claim → List ℕ → Transcript
new_transcript version claim key = record {
  version = version;
  claim = claim;
  hmac_key = key;
  entries = [];
  prev_digest = "genesis";
}

-- The arguments of `add_step`.
pub record StepArguments : Type 0 where
  pub sequence : ℕ
  pub tick : ℕ
  pub tool : String
  pub arguments_digest : String
  pub success_code : String
  pub result_digest : String
  pub reward_delta : ℕ
  pub terminated : Bool
  pub truncated : Bool
  pub cumulative_action_count : ℕ
  pub request_bytes : ℕ
  pub response_bytes : ℕ

-- `[e for e in entries if e.get("kind") == "step"]`
unfoldable pub steps : List Entry → List StepEntry
steps [] = []
steps (header h ∷ es) = steps es
steps (meta k v ∷ es) = steps es
steps (step e ∷ es) = e ∷ steps es

abbrev pub body_for : Claim → String → StepArguments → StepBody
body_for c prev x = record {
  sequence = x.sequence;
  fake_tick = x.tick;
  tool = x.tool;
  canonical_arguments_digest = x.arguments_digest;
  success_error_code = x.success_code;
  bounded_public_result_digest = x.result_digest;
  reward_delta = x.reward_delta;
  terminated = x.terminated;
  truncated = x.truncated;
  cumulative_action_count = x.cumulative_action_count;
  request_bytes = x.request_bytes;
  response_bytes = x.response_bytes;
  session_id = c.session_id;
  instance_id = c.instance_id;
  split = c.split;
  seed = c.seed;
  profile_binding = c.profile_binding;
  previous_step_digest = prev;
}

module _ (h : Hashing) where
  -- `_mac`
  unfoldable pub mac : List ℕ → Payload → String
  mac key payload = h.hmac_sha256 key (h.canonical payload)

  unfoldable pub step_digest_of : StepBody → String → String
  step_digest_of body tag = h.sha256 (h.canonical (tagged body tag))

  -- The entry that `add_step` appends.
  unfoldable pub entry_for : Transcript → StepArguments → StepEntry
  unfolding mac step_digest_of
  entry_for t x =
      let body = body_for t.claim t.prev_digest x in
      let tag = mac t.hmac_key (body_of body) in
      record { body = body; auth_tag = tag; step_digest = step_digest_of body tag }

  unfoldable pub add_step : StepArguments → Transcript → Transcript
  unfolding entry_for
  add_step x t =
      let e = entry_for t x in
      record t { entries = t.entries ++ step e ∷ []; prev_digest = e.step_digest }

  unfoldable pub add_meta : String → String → Transcript → Transcript
  add_meta key value t = record t { entries = t.entries ++ meta key value ∷ [] }

  -- `Transcript.digest`
  unfoldable pub digest_of : List StepEntry → String
  digest_of es = take_text 32 (h.sha256 (h.canonical (steps_of es)))

  unfoldable pub chain_mac : Transcript → String
  unfolding mac digest_of steps
  chain_mac t = mac t.hmac_key (chain_of t.claim (digest_of (steps t.entries)) t.prev_digest)

  unfoldable pub to_list : Transcript → List Entry
  unfolding chain_mac digest_of steps
  to_list t =
      header (record {
        environment_version = t.version;
        instance_id = t.instance_id;
        split = t.split;
        seed = t.seed;
        session_id = t.session_id;
        profile_binding = t.profile_binding;
        transcript_digest = digest_of (steps t.entries);
        chain_mac = chain_mac t;
      })
      ∷ t.entries

  module _ (c : Claim) (key : List ℕ) where
    -- The tests on one step entry, in the order of the source.
    unfoldable pub entry_is_authentic : String → StepEntry → Bool
    unfolding mac step_digest_of
    entry_is_authentic prev e =
        let expected_tag = mac key (body_of e.body) in
        (expected_tag == e.auth_tag)
        && ((e.previous_step_digest == prev)
            && ((e.session_id == c.session_id)
                && ((e.instance_id == c.instance_id)
                    && ((e.split == c.split)
                        && (nat_eq e.seed c.seed
                            && ((e.profile_binding == c.profile_binding)
                                && (e.step_digest == step_digest_of e.body expected_tag)))))))

    -- The loop over `transcript[1:]`: `none` where it returns False, otherwise the last digest and
    -- the step entries.
    unfoldable pub verify_loop : String → List Entry → Option (String × List StepEntry)
    verify_loop prev [] = some (prev, [])
    verify_loop prev (header _ ∷ es) = verify_loop prev es
    verify_loop prev (meta _ _ ∷ es) = verify_loop prev es
    verify_loop prev (step e ∷ es) =
        let rest = verify_loop e.step_digest es in
        if not (entry_is_authentic prev e)
        then none
        else elim rest [ none ↦ none | some (last, found) ↦ some (last, e ∷ found) ]

    -- The tests on the first entry before the loop.
    unfoldable pub header_fits : Header → Bool
    header_fits d =
        (d.session_id == c.session_id)
        && ((d.instance_id == c.instance_id)
            && ((d.split == c.split)
                && (nat_eq d.seed c.seed && (d.profile_binding == c.profile_binding))))

    -- The tests after the loop.
    unfoldable pub chain_fits : Header → Option (String × List StepEntry) → Bool
    unfolding mac digest_of
    chain_fits d none = false
    chain_fits d (some (last, found)) =
        (d.transcript_digest == digest_of found)
        && (mac key (chain_of c (digest_of found) last) == d.chain_mac)

    -- A first entry that is not the header lacks the fields that are compared.
    unfoldable pub verify_transcript : List Entry → Bool
    unfolding header_fits verify_loop chain_fits
    verify_transcript [] = false
    verify_transcript (header d ∷ es) =
        if not (header_fits d) then false else chain_fits d (verify_loop "genesis" es)
    verify_transcript (meta _ _ ∷ es) = false
    verify_transcript (step _ ∷ es) = false
