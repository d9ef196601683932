-- ===== src/Substrate/Store/Keys.antt =====
-- The counted keys of the audit table (src/event_service_substrate/store.py): a new entry has a
-- number of its own, so the queries by number see the old rows as they were.
use frontier_long_horizon_en.Prelude.{
  ℕ, ◌+◌, ◌≤◌, ◌<◌, String, ◌≡◌, ◌∙◌, refl, some, List, [], ◌∷◌, ◌++◌, arith,
}
use frontier_long_horizon_en.Substrate.Tables.{AuditRow}
use frontier_long_horizon_en.Substrate.Canonical.{Primitives}
use frontier_long_horizon_en.Substrate.Store.{max_seq, find_audit, audit_before, next_entry}

abbrev pub audit_max : List AuditRow → ℕ
audit_max rows = max_seq (λ r. r.seq) rows

pub seq-next_entry :
    (p : Primitives) (rows : List AuditRow) (k root actor : String) (t : ℕ)
    → (next_entry p rows k root actor t).seq ≡ audit_max rows + 1
unfolding next_entry
seq-next_entry p rows k root actor t = refl

pub audit_max-append :
    (rows : List AuditRow) (r : AuditRow)
    → audit_max rows < r.seq
    → audit_max (rows ++ r ∷ []) ≡ r.seq
unfolding max_seq
audit_max-append [] r h = ground arith
audit_max-append (x ∷ rows) r h = ground (arith, audit_max-append rows r)

pub find_audit-append_new :
    (rows : List AuditRow) (r : AuditRow)
    → audit_max rows < r.seq
    → find_audit r.seq (rows ++ r ∷ []) ≡ some r
unfolding max_seq find_audit
find_audit-append_new [] r h = ground arith
find_audit-append_new (x ∷ rows) r h = ground (arith, find_audit-append_new rows r)

pub find_audit-append :
    (n : ℕ) (rows : List AuditRow) (r q : AuditRow)
    → find_audit n rows ≡ some q
    → find_audit n (rows ++ r ∷ []) ≡ some q
unfolding find_audit
find_audit-append n [] r q h = cc
find_audit-append n (x ∷ rows) r q h = ground (arith, find_audit-append n rows r q)

pub find_audit-le :
    (n : ℕ) (rows : List AuditRow) (q : AuditRow) → find_audit n rows ≡ some q → n ≤ audit_max rows
unfolding find_audit max_seq
find_audit-le n [] q h = cc
find_audit-le n (x ∷ rows) q h = ground (arith, find_audit-le n rows q)

pub audit_before_all :
    (n : ℕ) (rows : List AuditRow) → audit_max rows < n → audit_before n rows ≡ rows
unfolding audit_before max_seq
audit_before_all n [] h = refl
audit_before_all n (x ∷ rows) h = ground (arith, audit_before_all n rows)

pub audit_before-append :
    (n : ℕ) (rows : List AuditRow) (r : AuditRow)
    → n ≤ r.seq
    → audit_before n (rows ++ r ∷ []) ≡ audit_before n rows
unfolding audit_before
audit_before-append n [] r h = ground arith
audit_before-append n (x ∷ rows) r h = ground (arith, audit_before-append n rows r)

pub audit_before-append_new :
    (rows : List AuditRow) (r : AuditRow)
    → audit_max rows < r.seq
    → audit_before r.seq (rows ++ r ∷ []) ≡ rows
audit_before-append_new rows r h =
    audit_before-append r.seq rows r (omega arith) ∙ audit_before_all r.seq rows h
