-- ===== src/Examples/Transcripts.antt =====
-- The theorems on src/training_ground/transcripts.py at a record of one step and one note.
use frontier_long_horizon_en.Prelude.{ℕ, ◌≡◌, refl, true, false, List, [], ◌∷◌}
use frontier_long_horizon_en.Ground.Transcript.{
  Claim, Transcript, StepArguments, Header, Entry, header, meta, step, steps, new_transcript,
  add_step, add_meta, entry_for, to_list, verify_transcript, chain_mac, digest_of,
}
use frontier_long_horizon_en.Ground.Transcript.RoundTrip.{
  step_call, meta_call, record_all, verify_transcript-to_list, Call,
}
use frontier_long_horizon_en.Ground.Transcript.Binding.{
  verify_transcript_ignores_meta, chain_mac_binds_steps,
}
use frontier_long_horizon_en.Examples.Instances.{spelled_hashing, spelled_hashing-IsCollisionFree}

abbrev pub claim : Claim
claim = record {
  session_id = "session";
  instance_id = "instance";
  split = "public_train";
  seed = 3;
  profile_binding = "binding";
}

abbrev pub arguments : StepArguments
arguments = record {
  sequence = 1;
  tick = 41;
  tool = "inspect";
  arguments_digest = "digest";
  success_code = "ok";
  result_digest = "result";
  reward_delta = 0;
  terminated = false;
  truncated = false;
  cumulative_action_count = 1;
  request_bytes = 10;
  response_bytes = 20;
}

abbrev pub key : List ℕ
key = 1 ∷ 2 ∷ []

abbrev calls : List Call
calls = step_call arguments ∷ meta_call "note" "first" ∷ []

abbrev recorded : Transcript
recorded = record_all spelled_hashing calls (new_transcript "1.0" claim key)

abbrev first_step : Entry
first_step = step (entry_for spelled_hashing (new_transcript "1.0" claim key) arguments)

abbrev header_of : Transcript → Header
header_of t = record {
  environment_version = t.version;
  instance_id = t.instance_id;
  split = t.split;
  seed = t.seed;
  session_id = t.session_id;
  profile_binding = t.profile_binding;
  transcript_digest = digest_of spelled_hashing (steps t.entries);
  chain_mac = chain_mac spelled_hashing t;
}

verify_transcript-to_list_example :
    verify_transcript spelled_hashing claim key (to_list spelled_hashing recorded) ≡ true
verify_transcript-to_list_example = verify_transcript-to_list spelled_hashing "1.0" claim key calls

verify_transcript_ignores_meta_example :
    verify_transcript spelled_hashing claim key
      (header (header_of recorded) ∷ first_step ∷ meta "note" "first" ∷ [])
    ≡ verify_transcript spelled_hashing claim key
        (header (header_of recorded) ∷ first_step ∷ meta "note" "forged" ∷ [])
unfolding steps
verify_transcript_ignores_meta_example =
    verify_transcript_ignores_meta spelled_hashing claim key (header_of recorded)
      (first_step ∷ meta "note" "first" ∷ []) (first_step ∷ meta "note" "forged" ∷ []) refl

-- The same record without the note has the same chain tag.
abbrev without_note : Transcript
without_note =
    record_all spelled_hashing (step_call arguments ∷ []) (new_transcript "1.0" claim key)

recorded_is_accepted :
    verify_transcript spelled_hashing claim key (header (header_of recorded) ∷ recorded.entries)
    ≡ true
unfolding to_list
recorded_is_accepted = verify_transcript-to_list spelled_hashing "1.0" claim key calls

without_note_is_accepted :
    verify_transcript spelled_hashing claim key
      (header (header_of without_note) ∷ without_note.entries)
    ≡ true
unfolding to_list
without_note_is_accepted =
    verify_transcript-to_list spelled_hashing "1.0" claim key (step_call arguments ∷ [])

chain_mac_binds_steps_example : steps recorded.entries ≡ steps without_note.entries
unfolding chain_mac record_all add_step add_meta steps
chain_mac_binds_steps_example =
    chain_mac_binds_steps spelled_hashing claim key spelled_hashing-IsCollisionFree
      (header_of recorded) (header_of without_note) recorded.entries without_note.entries
      recorded_is_accepted without_note_is_accepted refl
