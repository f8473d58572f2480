-- ===== src/Util/Random.antt =====
-- util/util.go: random texts. `draws i n` is what the i-th call of Intn returns for its argument n.
use Prim.Native.Char.{Char, code}
use addonconfig.Common.{
  ℕ, zero, suc, ◌≡◌, ◌<◌, refl, ap, String, Bool, true, false, ◌||◌, ◌&&◌, Option, none, some, eqb,
  arith,
}

abbrev pub char_set : String
char_set = "0123456789abcdefghijklmnopqrstuvwxyz"

-- A text at an index; out of range, where Go panics, it is `none`.
unfoldable pub char_at : String → ℕ → Option Char
char_at String.[] i = none
char_at (String.◌∷◌ c s) zero = some c
char_at (String.◌∷◌ c s) (suc i) = char_at s i

-- `len`, of a text of ASCII characters.
unfoldable pub text_length : String → ℕ
text_length String.[] = 0
text_length (String.◌∷◌ c s) = suc (text_length s)

abbrev and_text : Option Char → Option String → Option String
and_text none s = none
and_text (some c) none = none
and_text (some c) (some s) = some (String.◌∷◌ c s)

-- The loop over the result, from the index `i` on.
unfoldable pub random_from : (ℕ → ℕ → ℕ) → ℕ → ℕ → Option String
unfolding char_at text_length
random_from draws i zero = some String.[]
random_from draws i (suc n) =
    and_text (char_at char_set (draws i (text_length char_set))) (random_from draws (suc i) n)

-- `RandomString`, for a length that is not negative.
unfoldable pub random_string : (ℕ → ℕ → ℕ) → ℕ → Option String
unfolding random_from
random_string draws n = random_from draws 0 n

unfoldable pub contains_char : String → Char → Bool
contains_char String.[] d = false
contains_char (String.◌∷◌ c s) d = eqb (code c) (code d) || contains_char s d

unfoldable pub all_from : String → String → Bool
unfolding contains_char
all_from set String.[] = true
all_from set (String.◌∷◌ c s) = contains_char set c && all_from set s

-- A text that a run returned: of this length, and of the characters of the set.
pub record IsRandom (n : ℕ) (o : Option String) : Type 0 where
  pub text : String
  pub returned : o ≡ some text
  pub counted : text_length text ≡ n
  pub drawn : all_from char_set text ≡ true

eqb_refl : (n : ℕ) → eqb n n ≡ true
eqb_refl n = ground arith

char_at-contains :
    (s : String) (i : ℕ)
    → i < text_length s
    → (c : Char) × (char_at s i ≡ some c) × (contains_char s c ≡ true)
unfolding char_at text_length contains_char
char_at-contains String.[] i h = absurd (omega arith)
char_at-contains (String.◌∷◌ c s) zero h = (c, refl, rw (eqb_refl (code c)) refl)
char_at-contains (String.◌∷◌ c s) (suc i) h =
    let (d, found, there) = char_at-contains s i (omega arith) in
    (d, found, rw there (or_true (eqb (code c) (code d))))
  where
    or_true : (b : Bool) → (b || true) ≡ true
    or_true true = refl
    or_true false = refl

random_from-IsRandom :
    (draws : ℕ → ℕ → ℕ) (i n : ℕ)
    → ((j size : ℕ) → 0 < size → draws j size < size)
    → IsRandom n (random_from draws i n)
unfolding random_from text_length all_from
random_from-IsRandom draws i zero h = record {
  text = String.[];
  returned = refl;
  counted = refl;
  drawn = refl;
}
random_from-IsRandom draws i (suc n) h =
    let (c, found, there) =
      char_at-contains char_set (draws i (text_length char_set)) (h i _ (omega arith)) in
    let rest = random_from-IsRandom draws (suc i) n h in
    record {
      text = String.◌∷◌ c rest.text;
      returned = rw (found, rest.returned) refl;
      counted = ap suc rest.counted;
      drawn = rw (there, rest.drawn) refl;
    }

-- A random text of any length is returned, without an index out of range, and has that length and
-- characters of the set only, if Intn returns a number less than its argument wherever that is
-- positive.
pub random_string-IsRandom :
    (draws : ℕ → ℕ → ℕ) (n : ℕ)
    → ((j size : ℕ) → 0 < size → draws j size < size)
    → IsRandom n (random_string draws n)
unfolding random_string
random_string-IsRandom draws n h = random_from-IsRandom draws 0 n h
