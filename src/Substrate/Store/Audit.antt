-- ===== src/Substrate/Store/Audit.antt =====
-- The hash chain of `append_audit` and `audit_chain_valid` (src/event_service_substrate/store.py).
use mathlib.Core.List.{reverse, reverse-append, reverse-reverse}
use frontier_long_horizon_en.Prelude.{
  ℕ, zero, suc, String, ◌≡◌, refl, sym, ap, ◌∙◌, Bool, true, ◌&&◌, &&_split, none, some, List, [],
  ◌∷◌, ◌++◌, arith, eq_iff, eq_refl, ◌==◌, last?, last?-append, codes,
}
use frontier_long_horizon_en.Substrate.Tables.{AuditRow}
use frontier_long_horizon_en.Substrate.Canonical.{
  Primitives, IsCollisionFree, AuditFields, audit_fields, digest_frame, digest_inj,
}
use frontier_long_horizon_en.Substrate.Store.{
  Store, fields_of, genesis, entry_hash_of, prior_of, next_entry, append_audit, audit_loop,
  audit_chain_valid,
}

-- The hash that the rows end in, from `e` on.
abbrev last_hash : String → List AuditRow → String
last_hash e rows = elim (last? rows) [ none ↦ e | some r ↦ r.entry_hash ]

last_hash-cons :
    (e : String) (r : AuditRow) (rows : List AuditRow)
    → last_hash e (r ∷ rows) ≡ last_hash r.entry_hash rows
last_hash-cons e r rows = ground arith

-- The two domains differ in their seventh byte.
abbrev get_or : ℕ → List ℕ → ℕ
get_or i [] = 0
get_or zero (x ∷ xs) = x
get_or (suc i) (x ∷ xs) = get_or i xs

frames_differ :
    {b : List ℕ} → codes "audit-genesis-v1" ++ (0 ∷ []) ≡ codes "audit-entry-v1" ++ (0 ∷ b) → ⊥
frames_differ h = omega (arith, ap (get_or 6) h)

reverse-cons : (x : AuditRow) (xs : List AuditRow) → reverse (x ∷ xs) ≡ reverse xs ++ x ∷ []
reverse-cons x xs = reverse-append (x ∷ []) xs

audit_fields_inj : {f g : AuditFields} → audit_fields f ≡ audit_fields g → f ≡ g
audit_fields_inj h = cc

reverse_inj : {xs ys : List AuditRow} → reverse xs ≡ reverse ys → xs ≡ ys
reverse_inj {xs} {ys} h = sym (reverse-reverse xs) ∙ ap reverse h ∙ reverse-reverse ys

last_hash-append :
    (e : String) (rows : List AuditRow) (r : AuditRow) → last_hash e (rows ++ r ∷ []) ≡ r.entry_hash
last_hash-append e rows r = ground (arith, last?-append rows r)

module _ (p : Primitives) where
  -- What the loop asks of one row.
  abbrev links : String → AuditRow → Bool
  links prior r = (r.prior_root == prior) && (r.entry_hash == entry_hash_of p r)

  audit_loop-cons :
      (e : String) (r : AuditRow) (rows : List AuditRow)
      → audit_loop p e (r ∷ rows) ≡ (links e r && audit_loop p r.entry_hash rows)
  unfolding audit_loop
  audit_loop-cons e r rows = ground arith

  audit_loop-snoc :
      (e : String) (rows : List AuditRow) (r : AuditRow)
      → audit_loop p e (rows ++ r ∷ []) ≡ (audit_loop p e rows && links (last_hash e rows) r)
  audit_loop-snoc e [] r = rw audit_loop-cons (unfold audit_loop in ground arith)
  audit_loop-snoc e (x ∷ rows) r = ground (
    arith,
    audit_loop-cons e x rows,
    audit_loop-cons e x (rows ++ r ∷ []),
    audit_loop-snoc x.entry_hash rows r,
    last_hash-cons e x rows,
  )

  next_entry-links :
      (rows : List AuditRow) (k root actor : String) (t : ℕ)
      → links (prior_of p rows) (next_entry p rows k root actor t) ≡ true
  unfolding next_entry entry_hash_of
  next_entry-links rows k root actor t = simp eq_refl

  prior_of-eq-last_hash : (rows : List AuditRow) → prior_of p rows ≡ last_hash (genesis p) rows
  unfolding prior_of
  prior_of-eq-last_hash rows = refl

  -- Appending an entry leaves the verdict on the chain as it was: a valid chain stays valid, and a
  -- broken one is not repaired.
  pub audit_chain_valid-append_audit :
      (k root actor : String) (t : ℕ) (s : Store)
      → audit_chain_valid p (append_audit p k root actor t s) ≡ audit_chain_valid p s
  unfolding audit_chain_valid append_audit
  audit_chain_valid-append_audit k root actor t s = ground (
    arith,
    audit_loop-snoc (genesis p) s.audit_chain (next_entry p s.audit_chain k root actor t),
    next_entry-links s.audit_chain k root actor t,
    prior_of-eq-last_hash s.audit_chain,
  )

  -- What a chain that the loop accepts says of its newest row.
  snoc_facts :
      (xs : List AuditRow) (x : AuditRow)
      → audit_loop p (genesis p) (reverse (x ∷ xs)) ≡ true
      → (audit_loop p (genesis p) (reverse xs) ≡ true)
        × ((x.prior_root ≡ prior_of p (reverse xs)) × (x.entry_hash ≡ entry_hash_of p x))
        × (prior_of p (reverse (x ∷ xs)) ≡ x.entry_hash)
  snoc_facts xs x h =
      let kept = rw (reverse-cons, audit_loop-snoc) at h in
      let (older, own) = &&_split _ _ kept in
      let (linked, hashed) = &&_split _ _ own in
      (
        older,
        ((eq_iff _ _).0 linked ∙ sym (prior_of-eq-last_hash (reverse xs)), (eq_iff _ _).0 hashed),
        rw (reverse-cons, prior_of-eq-last_hash, last_hash-append),
      )

  module _ (free : IsCollisionFree p) where
    entry_hash_of_inj :
        (q r : AuditRow) → entry_hash_of p q ≡ entry_hash_of p r → fields_of q ≡ fields_of r
    unfolding entry_hash_of
    entry_hash_of_inj q r h =
        audit_fields_inj (free.json_inj _ _ (digest_inj p free "audit-entry-v1" _ _ h))

    genesis-ne-entry_hash_of : (r : AuditRow) → genesis p ≡ entry_hash_of p r → ⊥
    unfolding genesis entry_hash_of
    genesis-ne-entry_hash_of r h =
        frames_differ (digest_frame p free "audit-genesis-v1" "audit-entry-v1" [] _ h)

    loop_determines :
        (xs ys : List AuditRow)
        → audit_loop p (genesis p) (reverse xs) ≡ true
        → audit_loop p (genesis p) (reverse ys) ≡ true
        → prior_of p (reverse xs) ≡ prior_of p (reverse ys)
        → xs ≡ ys
    unfolding genesis prior_of
    loop_determines [] [] hx hy e = refl
    loop_determines [] (y ∷ ys) hx hy e =
        let (_, (_, own), end) = snoc_facts ys y hy in
        absurd (genesis-ne-entry_hash_of y (e ∙ end ∙ own))
    loop_determines (x ∷ xs) [] hx hy e =
        let (_, (_, own), end) = snoc_facts xs x hx in
        absurd (genesis-ne-entry_hash_of x (sym e ∙ end ∙ own))
    loop_determines (x ∷ xs) (y ∷ ys) hx hy e =
        let (vx, (px, ox), ex) = snoc_facts xs x hx in
        let (vy, (py, oy), ey) = snoc_facts ys y hy in
        let same : fields_of x ≡ fields_of y =
          entry_hash_of_inj x y (sym (ex ∙ ox) ∙ e ∙ ey ∙ oy) in
        let older : xs ≡ ys =
          loop_determines xs ys vx vy (sym px ∙ ap (λ f. f.prior_root) same ∙ py) in
        let newest : x ≡ y = cc (same, ex, ey, e) in cc (older, newest)

    -- If no two texts have one digest and no two documents one text: two stores with valid audit
    -- chains whose last hashes are the same (`prior_of`) have the same audit entries.
    pub audit_chain_is_determined :
        (s t : Store)
        → audit_chain_valid p s ≡ true
        → audit_chain_valid p t ≡ true
        → prior_of p s.audit_chain ≡ prior_of p t.audit_chain
        → s.audit_chain ≡ t.audit_chain
    unfolding audit_chain_valid
    audit_chain_is_determined s t hs ht e = reverse_inj (
        loop_determines (reverse s.audit_chain) (reverse t.audit_chain) (rw reverse-reverse hs)
          (rw reverse-reverse ht) (simp reverse-reverse e))
