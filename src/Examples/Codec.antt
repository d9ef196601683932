-- ===== src/Examples/Codec.antt =====
-- Encodings into lists of numbers that can be read back: what stands for JSON in the examples.
use Prim.Native.Nat.{Ordering, compare}
use Prim.Native.Char.{Char, char, IsScalar}
use Prim.Native.String.{[] as no_text, ◌∷◌ as cons_text}
use mathlib.Core.Path.{ap, sym, ◌∙◌}
use frontier_long_horizon_en.Prelude.{
  ℕ, zero, suc, String, ◌≡◌, refl, Bool, true, false, Option, none, some, List, [], ◌∷◌, length,
}

-- A value in front of a rest, and how to take it off again.
pub record Codec (A : Type 0) : Type 0 where
  pub put : A → List ℕ → List ℕ
  pub get : List ℕ → Option (A × List ℕ)
  pub get-put : (a : A) (rest : List ℕ) → get (put a rest) ≡ some (a, rest)

-- To go on with a value that was read, and with the rest.
abbrev pub then : {A B : Type 0} → Option (A × List ℕ) → (A → List ℕ → Option B) → Option B
then none k = none
then (some (a, rest)) k = k a rest

first_number : List ℕ → Option (ℕ × List ℕ)
first_number [] = none
first_number (n ∷ rest) = some (n, rest)

pub number : Codec ℕ
unfolding first_number
number = record { put = λ n rest. n ∷ rest; get = first_number; get-put = λ n rest. refl }

first_bool : List ℕ → Option (Bool × List ℕ)
first_bool [] = none
first_bool (zero ∷ rest) = some (false, rest)
first_bool (suc n ∷ rest) = some (true, rest)

bool_number : Bool → ℕ
bool_number true = 1
bool_number false = 0

bool_back : (b : Bool) (rest : List ℕ) → first_bool (bool_number b ∷ rest) ≡ some (b, rest)
unfolding first_bool bool_number
bool_back true rest = refl
bool_back false rest = refl

pub boolean : Codec Bool
boolean = record { put = λ b rest. bool_number b ∷ rest; get = first_bool; get-put = bool_back }

module _ {A B : Type 0} where
  pub pair : Codec A → Codec B → Codec (A × B)
  pair c d = record {
    put = λ x rest. c.put x.0 (d.put x.1 rest);
    get = λ l. then (c.get l) (λ a l'. then (d.get l') (λ b rest. some ((a, b), rest)));
    get-put = λ x rest. rw (c.get-put x.0 (d.put x.1 rest), d.get-put x.1 rest) refl;
  }

  pub along : (f : A → B) (g : B → A) → ((b : B) → f (g b) ≡ b) → Codec A → Codec B
  along f g back c = record {
    put = λ b rest. c.put (g b) rest;
    get = λ l. then (c.get l) (λ a rest. some (f a, rest));
    get-put = λ b rest. rw (c.get-put (g b) rest, back b) refl;
  }

module _ {A : Type 0} (c : Codec A) where
  put_option : Option A → List ℕ → List ℕ
  put_option none rest = 0 ∷ rest
  put_option (some a) rest = 1 ∷ c.put a rest

  get_option : List ℕ → Option (Option A × List ℕ)
  get_option [] = none
  get_option (zero ∷ rest) = some (none, rest)
  get_option (suc n ∷ l) = then (c.get l) (λ a rest. some (some a, rest))

  option_back : (o : Option A) (rest : List ℕ) → get_option (put_option o rest) ≡ some (o, rest)
  unfolding put_option get_option
  option_back none rest = refl
  option_back (some a) rest = rw (c.get-put a rest) refl

  pub optional : Codec (Option A)
  optional = record { put = put_option; get = get_option; get-put = option_back }

  put_items : List A → List ℕ → List ℕ
  put_items [] rest = rest
  put_items (x ∷ xs) rest = c.put x (put_items xs rest)

  get_items : ℕ → List ℕ → Option (List A × List ℕ)
  get_items zero l = some ([], l)
  get_items (suc n) l =
      then (c.get l) (λ a l'. then (get_items n l') (λ xs rest. some (a ∷ xs, rest)))

  items_back :
      (xs : List A) (rest : List ℕ) → get_items (length xs) (put_items xs rest) ≡ some (xs, rest)
  unfolding put_items get_items
  items_back [] rest = refl
  items_back (x ∷ xs) rest = rw (c.get-put x (put_items xs rest), items_back xs rest) refl

  get_list : List ℕ → Option (List A × List ℕ)
  get_list [] = none
  get_list (n ∷ l) = get_items n l

  list_back :
      (xs : List A) (rest : List ℕ) → get_list (length xs ∷ put_items xs rest) ≡ some (xs, rest)
  unfolding get_list
  list_back xs rest = items_back xs rest

  pub listed : Codec (List A)
  listed = record {
    put = λ xs rest. length xs ∷ put_items xs rest;
    get = get_list;
    get-put = list_back;
  }

-- Equal encodings are of equal values.
pub put_inj : {A : Type 0} (c : Codec A) (a b : A) → c.put a [] ≡ c.put b [] → a ≡ b
put_inj c a b h = some_inj (sym (c.get-put a []) ∙ ap c.get h ∙ c.get-put b [])
  where
    some_inj :
        {A : Type 0} {x y : A} → ◌≡◌ {A = Option (A × List ℕ)} (some (x, [])) (some (y, [])) → x ≡ y
    some_inj q = cc

-- A character from its number, if it is that of one.
abbrev IsBelow : Ordering → Type 0
IsBelow Ordering.lt = Unit
IsBelow Ordering.eq = ⊥
IsBelow Ordering.gt = ⊥

abbrev IsBetween : Ordering → Ordering → Type 0
IsBetween Ordering.lt o = IsBelow o
IsBetween Ordering.eq _ = ⊥
IsBetween Ordering.gt _ = ⊥

abbrev IsAny : Ordering → Ordering → Ordering → Type 0
IsAny Ordering.lt _ _ = Unit
IsAny Ordering.eq o q = IsBetween o q
IsAny Ordering.gt o q = IsBetween o q

below? : (o : Ordering) → Option (IsBelow o)
below? Ordering.lt = some tt
below? Ordering.eq = none
below? Ordering.gt = none

between? : (o q : Ordering) → Option (IsBetween o q)
unfolding below?
between? Ordering.lt q = below? q
between? Ordering.eq _ = none
between? Ordering.gt _ = none

any? : (o q r : Ordering) → Option (IsAny o q r)
any? Ordering.lt _ _ = some tt
any? Ordering.eq q r = between? q r
any? Ordering.gt q r = between? q r

below-found : (o : Ordering) (w : IsBelow o) → below? o ≡ some w
unfolding below?
below-found Ordering.lt w = refl
below-found Ordering.eq w = elim w [ ]
below-found Ordering.gt w = elim w [ ]

between-found : (o q : Ordering) (w : IsBetween o q) → between? o q ≡ some w
unfolding between?
between-found Ordering.lt q w = below-found q w
between-found Ordering.eq q w = elim w [ ]
between-found Ordering.gt q w = elim w [ ]

any-found : (o q r : Ordering) (w : IsAny o q r) → any? o q r ≡ some w
unfolding any?
any-found Ordering.lt q r w = refl
any-found Ordering.eq q r w = between-found q r w
any-found Ordering.gt q r w = between-found q r w

as_char : (n : ℕ) → Option (IsScalar n) → Option Char
as_char n none = none
as_char n (some w) = some (char n w)

from_code : ℕ → Option Char
from_code n = as_char n (any? (compare n 55296) (compare 57343 n) (compare n 1114112))

from_code-code : (n : ℕ) (w : IsScalar n) → from_code n ≡ some (char n w)
unfolding from_code as_char
from_code-code n w =
    ap (as_char n) (any-found (compare n 55296) (compare 57343 n) (compare n 1114112) w)

-- A text: the numbers of its characters, each increased by one, and 0.
put_text : String → List ℕ → List ℕ
put_text no_text rest = 0 ∷ rest
put_text (cons_text (char n w) s) rest = suc n ∷ put_text s rest

lead : Option Char → Option (String × List ℕ) → Option (String × List ℕ)
lead (some c) (some (s, rest)) = some (cons_text c s, rest)
lead (some c) none = none
lead none o = none

get_text : List ℕ → Option (String × List ℕ)
get_text [] = none
get_text (zero ∷ rest) = some ("", rest)
get_text (suc n ∷ l) = lead (from_code n) (get_text l)

text_back : (s : String) (rest : List ℕ) → get_text (put_text s rest) ≡ some (s, rest)
unfolding put_text get_text lead
text_back no_text rest = refl
text_back (cons_text (char n w) s) rest = rw (from_code-code n w, text_back s rest) refl

pub text : Codec String
text = record { put = put_text; get = get_text; get-put = text_back }
