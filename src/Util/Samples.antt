-- ===== src/Util/Samples.antt =====
-- Owner references, results, numbers, random texts and ports, and the theorems applied to them.
use addonconfig.Common.{
  Bool-cases, inl, inr, arith, ℕ, ◌≡◌, ◌<◌, refl, true, false, Option, none, some, List, [], ◌∷◌,
  String, ◌%◌, if◌then◌else◌, ◌==◌, ◌&&◌, eqb, subst,
}
use addonconfig.Common.Result.{Result, ok, err, ok_injective, err_not_ok}
use addonconfig.Util.Random.{IsRandom, random_string, random_string-IsRandom}
use addonconfig.Util.Locations.{
  ℤ, pos, negsuc, to_int32, Fits, Url, parse_port_from_url, parse_port_from_url-exact,
}
use addonconfig.Util.Requeue.{CtrlResult}
use addonconfig.Util.Owners.{
  replace_owner_ref, OwnerReference, has_owner_ref, ensure_owner_ref, remove_owner_ref,
}
use addonconfig.Util.OwnerLaws.{replace_twice, has-ensure, remove-ensure}
use addonconfig.Util.Ordinal.{ordinalize}

-- A parser that knows one version.
abbrev parse_group : String → Option String
parse_group version = if version == "v1" then some "" else none

abbrev first_owner : OwnerReference
first_owner = record { api_version = "v1"; kind = "Secret"; name = "a"; uid = "1" }

abbrev second_owner : OwnerReference
second_owner = record { api_version = "v1"; kind = "Secret"; name = "b"; uid = "2" }

abbrev owners : List OwnerReference
owners = first_owner ∷ []

has-ensure_example :
    has_owner_ref parse_group (ensure_owner_ref parse_group owners second_owner) second_owner ≡ true
has-ensure_example = has-ensure parse_group owners second_owner "" refl

not_owned : has_owner_ref parse_group owners second_owner ≡ false
unfolding has_owner_ref
not_owned = refl

remove-ensure_example :
    remove_owner_ref parse_group (ensure_owner_ref parse_group owners second_owner) second_owner
    ≡ owners
remove-ensure_example = remove-ensure parse_group owners second_owner "" refl not_owned

replace_twice_example :
    replace_owner_ref (replace_owner_ref owners "1" second_owner) "2" first_owner
    ≡ replace_owner_ref owners "1" first_owner
replace_twice_example = replace_twice owners "1" second_owner first_owner refl

abbrev in_30_s : CtrlResult
in_30_s = record { requeue = false; requeue_after = 30_000_000_000 }

abbrev at_once : CtrlResult
at_once = record { requeue = true; requeue_after = 0 }

ordinals : (ordinalize 1 ≡ "1st") × (ordinalize 103 ≡ "103rd")
unfolding ordinalize
ordinals = (refl, refl)

-- The draws take the numbers below the bound in turn.
abbrev in_turn : ℕ → ℕ → ℕ
in_turn i n = i % n

in_range : (i n : ℕ) → 0 < n → in_turn i n < n
in_range i n h = omega arith

random_string-IsRandom_example : IsRandom 3 (random_string in_turn 3)
random_string-IsRandom_example = random_string-IsRandom in_turn 3 in_range

abbrev local : Url
local = record { hostname = "localhost"; port = "8080" }

abbrev parse_url : String → Result String Url
parse_url url = ok local

-- A reader of one number.
abbrev parse_int : String → ℕ → ℕ → Result String ℤ
parse_int text base bit_size =
    if text == "8080" && eqb base 10 && eqb bit_size 32
    then ok (pos 8_080)
    else err "invalid syntax"

small :
    (text : String) (base bit_size : ℕ) (n : ℤ)
    → 0 < bit_size
    → parse_int text base bit_size ≡ ok n
    → Fits bit_size n
small text base bit_size n wide_enough h = elim (Bool-cases (text == "8080")) [
  | inl read ↦ elim (Bool-cases (eqb base 10)) [
    | inl decimal ↦ elim (Bool-cases (eqb bit_size 32)) [
      | inl bits ↦
          let wide : 32 ≡ bit_size = ground arith in
          subst (λ b. Fits b n) wide
            (subst (Fits 32) (ok_injective (rw (read, decimal, bits) at h)) (omega arith))
      | inr other ↦ absurd (err_not_ok (rw (read, decimal, other) at h))
    ]
    | inr other ↦ absurd (err_not_ok (rw (read, other) at h))
  ]
  | inr other ↦ absurd (err_not_ok (rw other at h))
]

-- The least number of 32 bits, and the first that needs more.
converted_ports :
    (to_int32 (negsuc 2_147_483_647) ≡ negsuc 2_147_483_647)
    × (to_int32 (pos 2_147_483_648) ≡ negsuc 2_147_483_647)
unfolding to_int32
converted_ports = (refl, refl)

parsed_port : parse_port_from_url parse_url parse_int "https://localhost:8080" ≡ ok (pos 8_080)
unfolding parse_port_from_url to_int32
parsed_port = refl

parse_port_from_url-exact_example :
    (u : Url) × (parse_url "https://localhost:8080" ≡ ok u)
    × (parse_int u.port 10 32 ≡ ok (pos 8_080))
    × Fits 32 (pos 8_080)
parse_port_from_url-exact_example =
    parse_port_from_url-exact parse_url parse_int "https://localhost:8080" (pos 8_080) small
      parsed_port
