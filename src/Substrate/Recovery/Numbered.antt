-- ===== src/Substrate/Recovery/Numbered.antt =====
-- The numbers of the recovery proofs (src/event_service_substrate/store.py): each proof bears the
-- number of an audit entry, so a new one has a key of its own and is the newest.
use frontier_long_horizon_en.Prelude.{
  ℕ, ◌≤◌, ◌<◌, ◌≡◌, refl, false, some, List, [], ◌∷◌, ◌++◌, arith, All, All-append,
}
use frontier_long_horizon_en.Substrate.Tables.{ProofRow}
use frontier_long_horizon_en.Substrate.Recovery.{newest, has_proof}

-- Each row is named after its number, and no number is beyond the bound.
abbrev pub AreWithin : ℕ → List ProofRow → Type 0
AreWithin n rows = All (λ (r : ProofRow). (r.proof_id ≡ r.audit_seq) × (r.audit_seq ≤ n)) rows

newest-within :
    (n : ℕ) (rows : List ProofRow) (q : ProofRow)
    → AreWithin n rows
    → newest rows ≡ some q
    → q.audit_seq ≤ n
unfolding newest
newest-within n [] q h e = ground arith
newest-within n (x ∷ rows) q h e = ground (arith, h.0.1, newest-within n rows q h.1)

pub newest-append :
    (n : ℕ) (rows : List ProofRow) (r : ProofRow)
    → AreWithin n rows
    → n < r.audit_seq
    → newest (rows ++ r ∷ []) ≡ some r
unfolding newest
newest-append n [] r h lt = refl
newest-append n (x ∷ rows) r h lt = ground (arith, h.0.1, newest-append n rows r h.1 lt)

pub has_proof-above :
    (n k : ℕ) (rows : List ProofRow) → AreWithin n rows → n < k → has_proof k rows ≡ false
unfolding has_proof
has_proof-above n k [] h lt = refl
has_proof-above n k (x ∷ rows) h lt = ground (arith, h.0.0, h.0.1, has_proof-above n k rows h.1 lt)

widened : (n m : ℕ) (rows : List ProofRow) → n ≤ m → AreWithin n rows → AreWithin m rows
widened n m [] le h = tt
widened n m (x ∷ rows) le h = ((h.0.0, omega (arith, le, h.0.1)), widened n m rows le h.1)

pub AreWithin-append :
    (n : ℕ) (rows : List ProofRow) (r : ProofRow)
    → AreWithin n rows
    → n ≤ r.audit_seq
    → r.proof_id ≡ r.audit_seq
    → AreWithin r.audit_seq (rows ++ r ∷ [])
AreWithin-append n rows r h le named =
    All-append (λ (q : ProofRow). (q.proof_id ≡ q.audit_seq) × (q.audit_seq ≤ r.audit_seq)) rows
      (r ∷ []) (widened n r.audit_seq rows le h) ((named, omega arith), tt)
