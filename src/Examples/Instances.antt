-- ===== src/Examples/Instances.antt =====
-- Instances of the hash functions, of JSON and of the order of rows, in which no two texts have one
-- digest and every document can be read back.
use Prim.Native.Char.{code}
use Prim.Native.String.{[] as no_text, ◌∷◌ as cons_text}
use mathlib.Core.Path.{ap, sym, ◌∙◌}
use mathlib.Core.List.{append_cancel_left}
use frontier_long_horizon_en.Prelude.{
  ℕ, zero, suc, String, ◌≡◌, refl, Option, none, some, List, [], ◌∷◌, ◌++◌, nat_eq, if◌then◌else◌,
  arith,
}
use frontier_long_horizon_en.Substrate.Tables.{Service}
use frontier_long_horizon_en.Substrate.Canonical.{
  Primitives, IsReliable, IsCollisionFree, Document, service_tables,
}
use frontier_long_horizon_en.Ground.Transcript.{Hashing, IsCollisionFree as IsFreeHashing}
use frontier_long_horizon_en.Examples.Codec.{put_inj}
use frontier_long_horizon_en.Examples.Documents.{document}
use frontier_long_horizon_en.Examples.Payloads.{payload}

-- A number in unary, closed by `b`, and a list of them.
unfoldable pub ticks : ℕ → String → String
ticks zero s = cons_text "b" s
ticks (suc n) s = cons_text "a" (ticks n s)

unfoldable pub spell : List ℕ → String
spell [] = ""
spell (n ∷ ns) = ticks n (spell ns)

bump : List ℕ → List ℕ
bump [] = []
bump (n ∷ ns) = suc n ∷ ns

pub unspell : String → List ℕ
unspell no_text = []
unspell (cons_text c s) = let rest = unspell s in if nat_eq (code c) 97 then bump rest else 0 ∷ rest

unspell-ticks : (n : ℕ) (s : String) → unspell (ticks n s) ≡ n ∷ unspell s
unfolding unspell ticks bump
unspell-ticks zero s = refl
unspell-ticks (suc n) s = rw (unspell-ticks n s) refl

pub unspell-spell : (ns : List ℕ) → unspell (spell ns) ≡ ns
unfolding spell
unspell-spell [] = unfold unspell in refl
unspell-spell (n ∷ ns) = unspell-ticks n (spell ns) ∙ ap (λ l. n ∷ l) (unspell-spell ns)

spell_inj : (a b : List ℕ) → spell a ≡ spell b → a ≡ b
spell_inj a b h = sym (unspell-spell a) ∙ ap unspell h ∙ unspell-spell b

-- A digest begins with `h`, a tag with its key.
hash : List ℕ → String
hash l = cons_text "h" (spell l)

tag : List ℕ → List ℕ → String
tag key l = spell (key ++ l)

tail_text : String → String
tail_text no_text = no_text
tail_text (cons_text c s) = s

first_code : String → ℕ
first_code no_text = 0
first_code (cons_text c s) = code c

hash_inj : (a b : List ℕ) → hash a ≡ hash b → a ≡ b
unfolding hash tail_text
hash_inj a b h = spell_inj a b (ap tail_text h)

hash-ne-genesis : (a : List ℕ) → hash a ≡ "genesis" → ⊥
unfolding hash first_code
hash-ne-genesis a h = let q : 104 ≡ 103 = ap first_code h in omega (arith, q)

tag_inj : (k a b : List ℕ) → tag k a ≡ tag k b → a ≡ b
unfolding tag
tag_inj k a b h = append_cancel_left k a b (spell_inj (k ++ a) (k ++ b) h)

service_of : Option (Document × List ℕ) → Option Service
service_of (some (service_tables v, [])) = some v
service_of _ = none

read_service : List ℕ → Option Service
read_service l = service_of (document.get l)

pub spelled : Primitives
spelled = record {
  sha256 = hash;
  hmac_sha256 = tag;
  canonical_json = λ d. document.put d [];
  loads_service = read_service;
  str_of = λ n. ticks n "";
  order_service = λ v. v;
  order_deployments = λ v. v;
  order_snapshots = λ v. v;
}

pub spelled-IsReliable : IsReliable spelled
unfolding spelled read_service service_of
spelled-IsReliable = record {
  loads_dumps = λ v. ap service_of (document.get-put (service_tables v) []);
  order_idem = λ v. refl;
}

pub spelled-IsCollisionFree : IsCollisionFree spelled
unfolding spelled
spelled-IsCollisionFree = record { sha256_inj = hash_inj; json_inj = put_inj document }

pub spelled_hashing : Hashing
spelled_hashing = record { sha256 = hash; hmac_sha256 = tag; canonical = λ x. payload.put x [] }

pub spelled_hashing-IsCollisionFree : IsFreeHashing spelled_hashing
unfolding spelled_hashing
spelled_hashing-IsCollisionFree = record {
  sha256_inj = hash_inj;
  sha256-ne-genesis = hash-ne-genesis;
  hmac_inj = tag_inj;
  canonical_inj = put_inj payload;
}
