-- ===== src/Agent/Trace/Validity.antt =====
-- Which tokens are valid (src/agent_surface/trace.py).
use Prim.Native.String.{◌++◌ as append_text}
use text.Mathlib.TextLemmas.{nil-append, cons-append, append-nil as append_empty}
use text.Mathlib.TextEquality.{path_by_compare}
use mathlib.Core.Bool.{true≢false}
use mathlib.Core.Path.{subst}
use frontier_long_horizon_en.Prelude.{
  Bool, List, Option, Result, String, [], ap, arith, codes, contains, eq_iff, eq_refl, err, false,
  if◌then◌else◌, none, not, ok, refl, some, sym, true, ℕ, ◌++◌, ◌==◌, ◌||◌, ◌∙◌, ◌∷◌, ◌≡◌, ◌≢◌,
}
use frontier_long_horizon_en.Agent.Trace.{
  validate_parsed, CapabilityError, Selector, Grant, Codecs, has_dot, IsReliable, TraceAuthority,
  Context, insert_view, sorted_set, grant_of, split_dot, any_covers, has_value, views_in,
  selectors_in, is_text, is_number, check_selector, check_grant, mac, issue, decode_parts,
  check_mac, parse_parts, parse, validate,
}

split_dot-append :
    (a b : String) → has_dot a ≡ false → split_dot (append_text a (append_text "." b)) ≡ some (a, b)
unfolding split_dot
split_dot-append String.[] b h = rw (nil-append, cons-append, nil-append)
split_dot-append (String.◌∷◌ c cs) b h = rw cons-append (ground (arith, split_dot-append cs b))

contains-insert_view :
    (a v : String) (ws : List String) → contains a (insert_view v ws) ≡ (a == v || contains a ws)
unfolding insert_view
contains-insert_view a v [] = refl
contains-insert_view a v (w ∷ ws) =
    ground (arith, path_by_compare v w, eq_iff a v, eq_iff a w, contains-insert_view a v ws)

contains-sorted_set : (a : String) (vs : List String) → contains a (sorted_set vs) ≡ contains a vs
unfolding sorted_set
contains-sorted_set a [] = refl
contains-sorted_set a (v ∷ vs) =
    rw (contains-insert_view a v (sorted_set vs), contains-sorted_set a vs)

-- A guard that is passed.
guard_ok :
    (b : Bool) (m : String) (r : Result CapabilityError Grant) (f : Grant)
    → (if not b then err m else r) ≡ ok f
    → (b ≡ true) × (r ≡ ok f)
guard_ok true m r f h = (refl, h)
guard_ok false m r f h = cc

allowed_ok :
    (b : Bool) (m : String) (g f : Grant)
    → ◌≡◌ {A = Result CapabilityError Grant} (if b then ok g else err m) (ok f)
    → (b ≡ true) × (g ≡ f)
allowed_ok true m g f h = (refl, cc)
allowed_ok false m g f h = cc

is_text-some : (o : Option String) (t : String) → is_text o t ≡ true → o ≡ some t
is_text-some none t h = absurd (true≢false (sym h))
is_text-some (some s) t h = ap (λ u. some u) ((eq_iff s t).0 h)

is_number-some : (o : Option ℕ) (n : ℕ) → is_number o n ≡ true → o ≡ some n
is_number-some none n h = absurd (true≢false (sym h))
is_number-some (some k) n h = ap (λ u. some u) (ground arith)

module _ (x : Codecs) (a : TraceAuthority) where
  decode_parts_back :
      (c : Context)
      → IsReliable x
      → decode_parts x a
          (x.urlsafe_b64 (x.canonical_json (grant_of c)))
          (x.urlsafe_b64 (codes (mac x a (grant_of c))))
        ≡ some (grant_of c, mac x a (grant_of c))
  unfolding decode_parts mac
  decode_parts_back c r =
      let body = x.canonical_json (grant_of c) in
      rw (
        decode_parts,
        r.b64_back body,
        r.b64_back (codes (mac x a (grant_of c))),
        r.ascii_back a.key (codes "trace-grant-v1" ++ (0 ∷ body)),
        r.json_back (grant_of c),
      )

  pub parse-issue : (c : Context) → IsReliable x → parse x a (issue x a c) ≡ ok (grant_of c)
  unfolding parse issue
  parse-issue c r =
      rw
        (
          append_empty,
          split_dot-append (x.urlsafe_b64 (x.canonical_json (grant_of c)))
              (x.urlsafe_b64 (codes (mac x a (grant_of c)))) (r.b64_no_dot _),
        )
        (ap (check_mac x a) (decode_parts_back c r) ∙ rw (eq_refl (mac x a (grant_of c))))

  -- An issued token is checked as the grant that it was issued for.
  pub validate-issue :
      (c : Context) (session : String) (epoch : ℕ) (view : String) (selector : Option Selector)
      → IsReliable x
      → validate x a (issue x a c) session epoch view selector
        ≡ check_grant session epoch view selector (grant_of c)
  unfolding validate validate_parsed
  validate-issue c session epoch view selector r = rw (parse-issue c r)

  -- If encodings are decoded again and have no dot: an issued token is valid for the session and
  -- the epoch that it was issued for and each of its views, and its validation gives the grant
  -- back.
  pub issued_is_valid :
      (c : Context) (view : String)
      → IsReliable x
      → contains view c.views ≡ true
      → validate x a (issue x a c) c.session_id c.epoch view none ≡ ok (grant_of c)
  unfolding check_grant check_selector grant_of
  issued_is_valid c view r seen =
      validate-issue c c.session_id c.epoch view none r
      ∙ ground (arith, eq_refl c.session_id, contains-sorted_set view c.views)

  pub stale_is_refused :
      (c : Context) (session : String) (epoch : ℕ) (view : String) (selector : Option Selector)
      (g : Grant)
      → IsReliable x
      → c.epoch ≢ epoch
      → validate x a (issue x a c) session epoch view selector ≢ ok g
  unfolding check_grant grant_of
  stale_is_refused c session epoch view selector g r older valid =
      let checked = sym (validate-issue c session epoch view selector r) ∙ valid in
      ground (arith, checked, older)

  -- What a token that is accepted for a selector has shown: it decodes to the grant and the tag of
  -- that grant under the key, for this session and epoch, with the view among its views and one of
  -- its selectors covering the selector.
  pub record IsGranted (token session : String) (epoch : ℕ) (view : String) (selector : Selector)
      (g : Grant) : Type 0 where
    pub body : String
    pub tag : String
    pub in_two : split_dot token ≡ some (body, tag)
    pub decoded : decode_parts x a body tag ≡ some (g, mac x a g)
    pub for_session : g.session_id ≡ some session
    pub for_epoch : g.epoch ≡ some epoch
    pub viewed : contains view (views_in g) ≡ true
    pub selected : any_covers (selectors_in g) selector ≡ true

  check_mac_ok :
      (o : Option (Grant × String)) (g : Grant) → check_mac x a o ≡ ok g → o ≡ some (g, mac x a g)
  unfolding check_mac
  check_mac_ok none g h = cc
  check_mac_ok (some (g', tag)) g h =
      let (same, kept) = allowed_ok (mac x a g' == tag) "invalid trace capability" g' g h in
      let tagged = (eq_iff (mac x a g') tag).0 same in cc (kept, tagged)

  parse_parts_ok :
      (o : Option (String × String)) (g : Grant)
      → parse_parts x a o ≡ ok g
      → (body : String) × (tag : String) × (o ≡ some (body, tag))
        × (decode_parts x a body tag ≡ some (g, mac x a g))
  unfolding parse_parts
  parse_parts_ok none g h = cc
  parse_parts_ok (some (body, tag)) g h =
      (body, tag, refl, check_mac_ok (decode_parts x a body tag) g h)

  check_selector_ok :
      (selector : Selector) (g f : Grant)
      → check_selector (some selector) g ≡ ok f
      → (g ≡ f) × (any_covers (selectors_in g) selector ≡ true)
  unfolding check_selector
  check_selector_ok selector g f h =
      let (some_value, covered) = guard_ok (has_value selector) _ _ f h in
      let (allowed, same) =
        allowed_ok (any_covers (selectors_in g) selector) "selector not allowed by trace capability"
          g f covered in
      (same, allowed)

  check_grant_ok :
      (session : String) (epoch : ℕ) (view : String) (selector : Selector) (g f : Grant)
      → check_grant session epoch view (some selector) g ≡ ok f
      → (g ≡ f)
        × (g.session_id ≡ some session)
        × (g.epoch ≡ some epoch)
        × (contains view (views_in g) ≡ true)
        × (any_covers (selectors_in g) selector ≡ true)
  unfolding check_grant check_selector
  check_grant_ok session epoch view selector g f h =
      let (named, h1) = guard_ok (is_text g.session_id session) _ _ f h in
      let (dated, h2) = guard_ok (is_number g.epoch epoch) _ _ f h1 in
      let (viewed, h3) = guard_ok (contains view (views_in g)) _ _ f h2 in
      let (same, covered) = check_selector_ok selector g f h3 in
      (
        same,
        is_text-some g.session_id session named,
        is_number-some g.epoch epoch dated,
        viewed,
        covered,
      )

  granted :
      (token session : String) (epoch : ℕ) (view : String) (selector : Selector) (g : Grant)
      (r : Result CapabilityError Grant)
      → parse x a token ≡ r
      → validate_parsed x a r session epoch view (some selector) ≡ ok g
      → IsGranted token session epoch view selector g
  unfolding parse validate_parsed
  granted token session epoch view selector g (err e) same bad = cc
  granted token session epoch view selector g (ok f) same good =
      let (kept, named, dated, viewed, covered) =
        check_grant_ok session epoch view selector f g good in
      let (body, tag, in_two, decoded) = parse_parts_ok (split_dot token) f same in
      subst (IsGranted token session epoch view selector) kept (record {
        body = body;
        tag = tag;
        in_two = in_two;
        decoded = decoded;
        for_session = named;
        for_epoch = dated;
        viewed = viewed;
        selected = covered;
      })

  -- A token that is accepted for a selector decodes to the grant and to the tag of that grant
  -- under the key; the grant is for this session and epoch, has the view among its views, and one
  -- of its selectors covers the selector.
  pub validate-IsGranted :
      (token session : String) (epoch : ℕ) (view : String) (selector : Selector) (g : Grant)
      → validate x a token session epoch view (some selector) ≡ ok g
      → IsGranted token session epoch view selector g
  unfolding validate
  validate-IsGranted token session epoch view selector g accepted =
      granted token session epoch view selector g (parse x a token) refl accepted
