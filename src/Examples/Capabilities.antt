-- ===== src/Examples/Capabilities.antt =====
-- The theorems on src/agent_surface/trace.py at codecs that can be read back, and a capability for
-- one event.
use Prim.Native.String.{◌∷◌ as cons_text}
use mathlib.Core.Path.{ap, ◌∙◌}
use frontier_long_horizon_en.Prelude.{
  zero, suc, codes, List, Option, String, [], ap, codes, false, if◌then◌else◌, nat_eq, none, ok,
  refl, some, suc, zero, ℕ, ◌++◌, ◌∙◌, ◌∷◌, ◌≡◌,
}
use frontier_long_horizon_en.Agent.Trace.{
  Selector, Grant, Codecs, has_dot, IsReliable, TraceAuthority, Context, grant_of, check_grant,
  issue, validate,
}
use frontier_long_horizon_en.Agent.Trace.Validity.{
  validate-issue, issued_is_valid, IsGranted, validate-IsGranted,
}
use frontier_long_horizon_en.Examples.Codec.{Codec, number, text, pair, along, optional, listed}
use frontier_long_horizon_en.Examples.Instances.{ticks, spell, unspell, unspell-spell}

grant_code : Codec Grant
grant_code =
    along
      (λ x. record {
        session_id = x.0;
        epoch = x.1.0;
        run_id = x.1.1.0;
        workload_id = x.1.1.1.0;
        alias = x.1.1.1.1.0;
        tick = x.1.1.1.1.1.0;
        selectors = x.1.1.1.1.1.1.0;
        views = x.1.1.1.1.1.1.1.0;
        others = x.1.1.1.1.1.1.1.1;
      })
      (λ g. (
        g.session_id,
        (
          g.epoch,
          (g.run_id, (g.workload_id, (g.alias, (g.tick, (g.selectors, (g.views, g.others)))))),
        ),
      ))
      (λ g. refl)
      (pair (optional text) (
        pair (optional number) (
          pair (optional number) (
            pair (optional text) (
              pair (optional text) (
                pair (optional number) (
                  pair (optional (listed (listed (pair text (optional text)))))
                    (pair (optional (listed text)) (listed (pair text text))))))))))

first : Option (Grant × List ℕ) → Option Grant
first none = none
first (some (g, rest)) = some g

-- A text of the letters `a` and `b`, from its code points.
letters : List ℕ → String
letters [] = ""
letters (n ∷ ns) = cons_text (if nat_eq n 97 then "a" else "b") (letters ns)

letters-codes-ticks :
    (n : ℕ) (s : String) → letters (codes (ticks n s)) ≡ ticks n (letters (codes s))
unfolding ticks letters
letters-codes-ticks zero s = refl
letters-codes-ticks (suc n) s = ap (λ t. cons_text "a" t) (letters-codes-ticks n s)

letters-codes-spell : (l : List ℕ) → letters (codes (spell l)) ≡ spell l
unfolding spell letters
letters-codes-spell [] = refl
letters-codes-spell (n ∷ ns) =
    letters-codes-ticks n (spell ns) ∙ ap (ticks n) (letters-codes-spell ns)

ticks_no_dot : (n : ℕ) (s : String) → has_dot (ticks n s) ≡ has_dot s
unfolding ticks
ticks_no_dot zero s = refl
ticks_no_dot (suc n) s = ticks_no_dot n s

spell_no_dot : (l : List ℕ) → has_dot (spell l) ≡ false
unfolding spell
spell_no_dot [] = refl
spell_no_dot (n ∷ ns) = ticks_no_dot n (spell ns) ∙ spell_no_dot ns

pub readable : Codecs
unfolding grant_code first letters
readable = record {
  sha256 = spell;
  hmac_sha256 = λ k l. spell (k ++ l);
  hmac_bytes = λ k l. k ++ l;
  canonical_json = λ g. grant_code.put g [];
  json_decode = λ l. first (grant_code.get l);
  urlsafe_b64 = spell;
  decode_urlsafe_b64 = λ s. some (unspell s);
  decode_ascii = λ l. some (letters l);
}

pub readable-IsReliable : IsReliable readable
unfolding readable
readable-IsReliable = record {
  json_back = λ g. rw (grant_code.get-put g []);
  b64_back = λ l. ap (λ q. some q) (unspell-spell l);
  b64_no_dot = spell_no_dot;
  ascii_back = λ k l. ap (λ s. some s) (letters-codes-spell (k ++ l));
}

abbrev pub authority : TraceAuthority
authority = record { key = 7 ∷ []; scope = "trace-scope-0" }

abbrev pub context : Context
context = record {
  session_id = "session";
  epoch = 2;
  run_id = 0;
  workload_id = "P1";
  alias = "P1";
  tick = 41;
  selectors = (("event_id", some "evt_1") ∷ ("command_key", some "K1") ∷ []) ∷ [];
  views = "trace" ∷ "journal" ∷ [];
}

abbrev pub selector : Selector
selector = ("event_id", some "evt_1") ∷ ("occurrence_id", none) ∷ []

issued_is_valid_example :
    validate readable authority (issue readable authority context) "session" 2 "journal" none
    ≡ ok (grant_of context)
issued_is_valid_example =
    issued_is_valid readable authority context "journal" readable-IsReliable refl

pub accepted :
    validate readable authority
      (issue readable authority context)
      "session"
      2
      "journal"
      (some selector)
    ≡ ok (grant_of context)
unfolding check_grant grant_of
accepted =
    validate-issue readable authority context "session" 2 "journal" (some selector)
      readable-IsReliable

validate-IsGranted_example :
    IsGranted readable authority
      (issue readable authority context)
      "session"
      2
      "journal"
      selector
      (grant_of context)
validate-IsGranted_example =
    validate-IsGranted readable authority (issue readable authority context) "session" 2 "journal"
      selector (grant_of context) accepted
