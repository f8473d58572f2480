-- ===== src/Conditions/Sprintf.antt =====
-- `fmt.Sprintf`, which the constructors of setter.go call: literal text, the directives with flags,
-- width and precision, and the two complaints about a bad format. Each argument is given as the
-- text that its verb prints. Left out: `*` and `[n]`, and the complaint about arguments left over.
use Prim.Native.Char.{Char, code}
use Prim.Native.String
use addonconfig.Common.{
  ℕ, String, Bool, true, false, not, ◌≡◌, refl, ap, inl, inr, Bool-cases, ◌||◌, ◌&&◌, List, [], ◌∷◌,
  leb, eqb, if◌then◌else◌,
}

abbrev text : Char → String → String
text c s = String.◌∷◌ c s

-- `+-# 0`, the digits of a width, and the point with the digits of a precision.
abbrev is_flag : ℕ → Bool
is_flag c =
    eqb c b'+' || eqb c b'-' || eqb c b'#' || eqb c b' ' || eqb c b'.' || (leb b'0' c && leb c b'9')

-- `directive` tells whether a `%` has been read whose verb has not.
scan : (directive : Bool) → List String → String → String
scan true args String.[] = "%!(NOVERB)"
scan false args String.[] = String.[]
scan false args (String.◌∷◌ c s) =
    let literal = text c (scan false args s) in
    let verb = scan true args s in if eqb (code c) b'%' then verb else literal
scan true [] (String.◌∷◌ c s) =
    let more = scan true [] s in
    let percent = text c (scan false [] s) in
    let missing = String.◌++◌ "%!" (text c (String.◌++◌ "(MISSING)" (scan false [] s))) in
    if is_flag (code c) then more else if eqb (code c) b'%' then percent else missing
scan true (a ∷ args) (String.◌∷◌ c s) =
    let more = scan true (a ∷ args) s in
    let percent = text c (scan false (a ∷ args) s) in
    let printed = String.◌++◌ a (scan false args s) in
    if is_flag (code c) then more else if eqb (code c) b'%' then percent else printed

unfoldable pub sprintf : String → List String → String
unfolding scan
sprintf format args = scan false args format

-- What `%q` prints: the text in quotation marks, with these and backslashes escaped. Characters that
-- cannot be printed, for which Go writes their numbers, are left as they are.
escape : String → String
escape String.[] = String.[]
escape (String.◌∷◌ c s) =
    let rest = text c (escape s) in
    if eqb (code c) b'"' || eqb (code c) 92 then String.◌++◌ "\\" rest else rest

unfoldable pub quote : String → String
unfolding escape
quote s = String.◌++◌ "\"" (String.◌++◌ (escape s) "\"")

-- Whether a text has no `%`.
abbrev pub is_plain : String → Bool
is_plain String.[] = true
is_plain (String.◌∷◌ c s) = not (eqb (code c) b'%') && is_plain s

false_is_not : false ≡ true → ⊥
false_is_not h = cc

scan_plain : (args : List String) (s : String) → is_plain s ≡ true → scan false args s ≡ s
unfolding scan
scan_plain args String.[] h = refl
scan_plain args (String.◌∷◌ c s) h = elim (Bool-cases (eqb (code c) b'%')) [
  | inl percent ↦ absurd (false_is_not (rw percent at h))
  | inr plain ↦ rw plain (ap (text c) (scan_plain args s (rw plain at h)))
]

-- A format without `%` and without arguments is printed as it is.
pub sprintf_plain : (format : String) → is_plain format ≡ true → sprintf format [] ≡ format
unfolding sprintf
sprintf_plain format h = scan_plain [] format h
