-- ===== src/Controller/Constraints.antt =====
-- controllers/addonconfig_controller_phases.go: the constraints of a dependency's target, described
-- as a set of operators.
use addonconfig.Common.{
  ◌≡◌, refl, ap, ◌∙◌, Bool, true, false, ◌||◌, not, Option, none, some, List, [], ◌∷◌, ◌==◌, ==_iff,
  any, arith, String, if◌then◌else◌,
}
use addonconfig.Controller.Dependencies.{TargetConstraints, no_constraints, read_constraints}

-- Whether an operator stands in the list.
unfoldable pub has_operator : List String → String → Bool
has_operator operators name = any (λ operator. operator == name) operators

unfoldable pub known_operator : String → Bool
known_operator operator =
    operator == "unique" || operator == "selectFirst" || operator == "optional"

exclusive : (a b c : String) → (b == c) ≡ false → (a == b) ≡ true → (a == c) ≡ false
exclusive a b c apart h = ap (λ s. s == c) ((==_iff a b).0 h) ∙ apart

-- The constraints `c`, and those that are found besides.
abbrev joined : TargetConstraints → Bool → Bool → Bool → TargetConstraints
joined c unique select_first optional = record {
  unique = c.unique || unique;
  select_first = c.select_first || select_first;
  optional = c.optional || optional;
}

true_or : (b : Bool) → (b || true) ≡ true
true_or true = refl
true_or false = refl

-- One round of the loop, for the outcomes of its tests and what the rest of the operators comes to.
one_operator :
    (is_u is_s is_o bad u s o : Bool) (c : TargetConstraints)
    (with_u with_s with_o : Option TargetConstraints)
    → (is_u ≡ true → is_s ≡ false)
    → (is_u ≡ true → is_o ≡ false)
    → (is_s ≡ true → is_o ≡ false)
    → with_u ≡ (if bad then none else some (joined (record c { unique = true }) u s o))
    → with_s ≡ (if bad then none else some (joined (record c { select_first = true }) u s o))
    → with_o ≡ (if bad then none else some (joined (record c { optional = true }) u s o))
    → (if is_u then with_u else if is_s then with_s else if is_o then with_o else none) ≡ (
        if not (is_u || is_s || is_o) || bad
        then none
        else some (joined c (is_u || u) (is_s || s) (is_o || o)))
one_operator true is_s is_o bad u s o c with_u with_s with_o us uo so eu es eo =
    rw (us refl, uo refl, true_or c.unique) eu
one_operator false true is_o bad u s o c with_u with_s with_o us uo so eu es eo =
    rw (so refl, true_or c.select_first) es
one_operator false false true bad u s o c with_u with_s with_o us uo so eu es eo =
    rw (true_or c.optional) eo
one_operator false false false bad u s o c with_u with_s with_o us uo so eu es eo = refl

read_constraints_with :
    (operators : List String) (c : TargetConstraints)
    → read_constraints operators c ≡ (
        if any (λ operator. not (known_operator operator)) operators
        then none
        else some (
            joined c
              (has_operator operators "unique")
              (has_operator operators "selectFirst")
              (has_operator operators "optional")))
unfolding read_constraints has_operator known_operator
read_constraints_with [] c = ground arith
read_constraints_with (operator ∷ rest) c =
    one_operator (operator == "unique") (operator == "selectFirst") (operator == "optional")
      (any (λ operator. not (known_operator operator)) rest) (has_operator rest "unique")
      (has_operator rest "selectFirst") (has_operator rest "optional") c
      (read_constraints rest (record c { unique = true }))
      (read_constraints rest (record c { select_first = true }))
      (read_constraints rest (record c { optional = true }))
      (exclusive operator "unique" "selectFirst" refl) (exclusive operator "unique" "optional" refl)
      (exclusive operator "selectFirst" "optional" refl)
      (read_constraints_with rest (record c { unique = true }))
      (read_constraints_with rest (record c { select_first = true }))
      (read_constraints_with rest (record c { optional = true }))

-- Reading the operators fails exactly where one of them is none of the three, and else gives for each
-- of the three whether it is there: neither their order nor how often they stand there counts.
pub read_constraints_lem :
    (operators : List String)
    → read_constraints operators no_constraints ≡ (
        if any (λ operator. not (known_operator operator)) operators
        then none
        else some (record {
          unique = has_operator operators "unique";
          select_first = has_operator operators "selectFirst";
          optional = has_operator operators "optional";
        }))
read_constraints_lem operators = read_constraints_with operators no_constraints
