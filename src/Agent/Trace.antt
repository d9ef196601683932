-- ===== src/Agent/Trace.antt =====
-- `TraceCapabilityAuthority` of src/agent_surface/trace.py: capability tokens for traces and state
-- views, bound to a session and an epoch. The codecs are parameters. Proofs are in the modules below.
pub mod Validity
use Prim.Native.Char.{code}
use Prim.Native.String.{compare}
use Prim.Native.Nat.{Ordering}
use frontier_long_horizon_en.Prelude.{
  ℕ, String, ◌≡◌, Bool, true, false, not, ◌&&◌, ◌||◌, Option, none, some, List, [], ◌∷◌, ◌++◌,
  nat_eq, ◌==◌, if◌then◌else◌, take_text, codes, contains, join, Dict, lookup, Result, ok, err,
  length, ltb,
}

-- The code and the message of a `ToolError`.
abbrev pub CapabilityError : Type 0
CapabilityError = String

-- A dictionary of event id, command key and occurrence id, or of other names; a value may be None.
abbrev pub Selector : Type 0
Selector = Dict (Option String)

-- A decoded grant: any of the keys may be missing, and `others` is what else there is.
pub record Grant : Type 0 where
  pub session_id : Option String
  pub epoch : Option ℕ
  pub run_id : Option ℕ
  pub workload_id : Option String
  pub alias : Option String
  pub tick : Option ℕ
  pub selectors : Option (List Selector)
  pub views : Option (List String)
  pub others : List (String × String)

-- hmac, hashlib, json and base64. A text that does not decode gives `none`.
pub record Codecs : Type 0 where
  pub sha256 : List ℕ → String
  -- the hexadecimal text, and the bytes
  pub hmac_sha256 : List ℕ → List ℕ → String
  pub hmac_bytes : List ℕ → List ℕ → List ℕ
  pub canonical_json : Grant → List ℕ
  pub json_decode : List ℕ → Option Grant
  pub urlsafe_b64 : List ℕ → String
  pub decode_urlsafe_b64 : String → Option (List ℕ)
  pub decode_ascii : List ℕ → Option String

abbrev pub has_dot : String → Bool
has_dot String.[] = false
has_dot (String.◌∷◌ c cs) = nat_eq (code c) 46 || has_dot cs

-- What trace.py relies on: what is encoded is decoded again, and no encoding has a dot.
pub record IsReliable (x : Codecs) : Type 0 where
  pub json_back : (g : Grant) → x.json_decode (x.canonical_json g) ≡ some g
  pub b64_back : (l : List ℕ) → x.decode_urlsafe_b64 (x.urlsafe_b64 l) ≡ some l
  pub b64_no_dot : (l : List ℕ) → has_dot (x.urlsafe_b64 l) ≡ false
  pub ascii_back :
      (k l : List ℕ) → x.decode_ascii (codes (x.hmac_sha256 k l)) ≡ some (x.hmac_sha256 k l)

pub record TraceAuthority : Type 0 where
  pub key : List ℕ
  pub scope : String

-- The constructor, with its checks.
unfoldable pub trace_authority : List ℕ → String → Result String TraceAuthority
trace_authority key scope =
    if ltb (length key) 32
    then err "trace capability key must contain at least 32 bytes"
    else if scope == ""
    then err "trace capability scope must be non-empty"
    else ok (record { key = key; scope = scope })

-- The arguments of `issue`.
pub record Context : Type 0 where
  pub session_id : String
  pub epoch : ℕ
  pub run_id : ℕ
  pub workload_id : String
  pub alias : String
  pub tick : ℕ
  pub selectors : List Selector
  pub views : List String

-- `sorted(set(views))`
unfoldable pub insert_view : String → List String → List String
insert_view v [] = v ∷ []
insert_view v (w ∷ ws) =
    let rest = insert_view v ws in
    elim (compare v w) [ Ordering.lt ↦ v ∷ w ∷ ws | Ordering.eq ↦ w ∷ ws | Ordering.gt ↦ w ∷ rest ]

unfoldable pub sorted_set : List String → List String
unfolding insert_view
sorted_set [] = []
sorted_set (v ∷ vs) = insert_view v (sorted_set vs)

unfoldable pub grant_of : Context → Grant
unfolding sorted_set
grant_of c = record {
  session_id = some c.session_id;
  epoch = some c.epoch;
  run_id = some c.run_id;
  workload_id = some c.workload_id;
  alias = some c.alias;
  tick = some c.tick;
  selectors = some c.selectors;
  views = some (sorted_set c.views);
  others = [];
}

-- `token.split(".", 1)`: `none` for a text without a dot.
unfoldable pub split_dot : String → Option (String × String)
split_dot String.[] = none
split_dot (String.◌∷◌ c cs) =
    let rest = split_dot cs in
    if nat_eq (code c) 46
    then some ("", cs)
    else elim rest [ none ↦ none | some (a, b) ↦ some (String.◌∷◌ c a, b) ]

-- `allowed.get(key) == value` for the keys of a selector whose value is not None.
unfoldable pub covers : Selector → Selector → Bool
covers allowed [] = true
covers allowed ((k, none) ∷ s) = covers allowed s
covers allowed ((k, some v) ∷ s) =
    let rest = covers allowed s in
    elim (lookup k allowed) [ some (some w) ↦ (w == v) && rest | _ ↦ false ]

unfoldable pub any_covers : List Selector → Selector → Bool
unfolding covers
any_covers [] s = false
any_covers (a ∷ as') s = covers a s || any_covers as' s

-- `any(value is not None for value in selector.values())`
unfoldable pub has_value : Selector → Bool
has_value [] = false
has_value ((k, none) ∷ s) = has_value s
has_value ((k, some v) ∷ s) = true

abbrev pub views_in : Grant → List String
views_in g = elim g.views [ none ↦ [] | some vs ↦ vs ]

abbrev pub selectors_in : Grant → List Selector
selectors_in g = elim g.selectors [ none ↦ [] | some ss ↦ ss ]

abbrev pub is_text : Option String → String → Bool
is_text none t = false
is_text (some s) t = s == t

abbrev pub is_number : Option ℕ → ℕ → Bool
is_number none n = false
is_number (some k) n = nat_eq k n

-- The test on the selector, for a grant that has passed the others.
unfoldable pub check_selector : Option Selector → Grant → Result CapabilityError Grant
unfolding any_covers has_value
check_selector none g = ok g
check_selector (some s) g =
    if not (has_value s)
    then err "selector is empty"
    else if any_covers (selectors_in g) s
    then ok g
    else err "selector not allowed by trace capability"

-- The tests of `validate` behind `parse`, in their order.
unfoldable pub check_grant :
    String → ℕ → String → Option Selector → Grant → Result CapabilityError Grant
unfolding check_selector
check_grant session_id epoch view selector g =
    if not (is_text g.session_id session_id)
    then err "trace capability session mismatch"
    else if not (is_number g.epoch epoch)
    then err "trace capability expired"
    else if not (contains view (views_in g))
    then err "trace capability view not allowed"
    else check_selector selector g

module _ (x : Codecs) where
  -- `derive_from_recovery_authority`, with the text of the profile.
  unfoldable pub derive_from_recovery_authority :
      List ℕ → String → String → Result String TraceAuthority
  unfolding trace_authority
  derive_from_recovery_authority recovery_key recovery_scope profile =
      let message =
        codes "trace-capability-v1" ++ (0 ∷ (codes recovery_scope ++ (0 ∷ codes profile))) in
      trace_authority (x.hmac_bytes recovery_key message)
        (join ("trace-" ∷ recovery_scope ∷ "-" ∷ profile ∷ []))

  -- `derive_placeholder`: the dictionary has neither selectors nor views.
  unfoldable pub derive_placeholder : Context → String
  unfolding grant_of
  derive_placeholder c =
      let identity = record (grant_of c) { selectors = none; views = none } in
      join (
        "h_"
        ∷ take_text 32 (x.sha256 (codes "trace-handle-v1" ++ (0 ∷ x.canonical_json identity)))
        ∷ [])

  module _ (a : TraceAuthority) where
    -- `_mac`
    unfoldable pub mac : Grant → String
    mac g = x.hmac_sha256 a.key (codes "trace-grant-v1" ++ (0 ∷ x.canonical_json g))

    -- `issue`
    unfoldable pub issue : Context → String
    unfolding grant_of mac
    issue c =
        let g = grant_of c in
        join (x.urlsafe_b64 (x.canonical_json g) ∷ "." ∷ x.urlsafe_b64 (codes (mac g)) ∷ [])

    -- The `try` statement of `parse`.
    unfoldable pub decode_parts : String → String → Option (Grant × String)
    decode_parts body_b64 mac_b64 = elim (x.decode_urlsafe_b64 body_b64) [
      | none ↦ none
      | some body ↦ elim (x.decode_urlsafe_b64 mac_b64) [
        | none ↦ none
        | some tag ↦ elim (x.decode_ascii tag) [
          | none ↦ none
          | some t ↦ elim (x.json_decode body) [ none ↦ none | some g ↦ some (g, t) ]
        ]
      ]
    ]

    unfoldable pub check_mac : Option (Grant × String) → Result CapabilityError Grant
    unfolding mac
    check_mac none = err "invalid trace capability"
    check_mac (some (g, tag)) = if mac g == tag then ok g else err "invalid trace capability"

    unfoldable pub parse_parts : Option (String × String) → Result CapabilityError Grant
    unfolding decode_parts check_mac
    parse_parts none = err "invalid trace capability"
    parse_parts (some (body_b64, mac_b64)) = check_mac (decode_parts body_b64 mac_b64)

    unfoldable pub parse : String → Result CapabilityError Grant
    unfolding split_dot parse_parts
    parse token = parse_parts (split_dot token)

    -- `validate` behind `parse`.
    unfoldable pub validate_parsed :
        Result CapabilityError Grant
        → String
        → ℕ
        → String
        → Option Selector
        → Result CapabilityError Grant
    unfolding check_grant
    validate_parsed (err e) session_id epoch view selector = err e
    validate_parsed (ok g) session_id epoch view selector =
        check_grant session_id epoch view selector g

    unfoldable pub validate :
        String → String → ℕ → String → Option Selector → Result CapabilityError Grant
    unfolding parse validate_parsed
    validate token session_id epoch view selector =
        validate_parsed (parse token) session_id epoch view selector
