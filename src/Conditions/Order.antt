-- ===== src/Conditions/Order.antt =====
-- util/conditions/setter.go: the order in which `Set` and `Delete` leave the conditions.
use addonconfig.Common.{
  ◌≡◌, refl, ◌∙◌, true, false, Option, none, some, [], ◌∷◌, ◌++◌, ==_iff, str_ltb_trans,
  str_ltb_total, str_ltb_asymm, Bool-cases, inl, inr, arith, All,
}
use addonconfig.Api.Condition.{ConditionType, Condition, Conditions, Time, ready_condition}
use addonconfig.Conditions.Getter.{get}
use addonconfig.Conditions.Setter.{lexicographic_less, insert, sort, stamped, set_condition, delete}
use addonconfig.Conditions.Lookup.{
  get-insert, get-sort, get-append, get-place, get-delete, place, rewritten, overwrite_lem, result,
  stamped-type, rewritten-type,
}

less_trans :
    (a b c : Condition)
    → lexicographic_less a b ≡ true
    → lexicographic_less b c ≡ true
    → lexicographic_less a c ≡ true
unfolding lexicographic_less
less_trans a b c h k = ground (arith, str_ltb_trans a.type b.type c.type)

pub less_total :
    (a b : Condition)
    → lexicographic_less a b ≡ false
    → lexicographic_less b a ≡ false
    → a.type ≡ b.type
unfolding lexicographic_less
less_total a b h k = ground (
  arith,
  ==_iff a.type ready_condition,
  ==_iff b.type ready_condition,
  str_ltb_total a.type b.type,
)

less_asymm : (a b : Condition) → lexicographic_less a b ≡ true → lexicographic_less b a ≡ false
unfolding lexicographic_less
less_asymm a b h = ground (arith, str_ltb_asymm a.type b.type)

less_cong : (a b c : Condition) → a.type ≡ b.type → lexicographic_less c a ≡ lexicographic_less c b
unfolding lexicographic_less
less_cong a b c h = rw h

-- `d` may stand behind `c`.
abbrev pub Follows : Condition → Condition → Type 0
Follows c d = lexicographic_less d c ≡ false

Follows-trans : (a b c : Condition) → Follows a b → Follows b c → Follows a c
Follows-trans a b c h k = ground (arith, less_trans c a b, less_total a b, less_cong a b c)

-- No condition stands before one that is less than it.
abbrev pub IsSorted : Conditions → Type 0
IsSorted [] = Unit
IsSorted (c ∷ cs) = All (Follows c) cs × IsSorted cs

-- No two conditions have one type.
abbrev pub IsDistinct : Conditions → Type 0
IsDistinct [] = Unit
IsDistinct (c ∷ cs) = (get cs c.type ≡ none) × IsDistinct cs

-- What `Set` promises of the list that it leaves on the object.
pub record IsCanonical (cs : Conditions) : Type 0 where
  pub sorted : IsSorted cs
  pub distinct : IsDistinct cs

All-Follows :
    (a b : Condition) (cs : Conditions) → Follows a b → All (Follows b) cs → All (Follows a) cs
All-Follows a b [] h k = tt
All-Follows a b (c ∷ cs) h k = (Follows-trans a b c h k.0, All-Follows a b cs h k.1)

All-insert :
    (a c : Condition) (ds : Conditions)
    → Follows a c
    → All (Follows a) ds
    → All (Follows a) (insert c ds)
unfolding insert
All-insert a c [] h k = (h, tt)
All-insert a c (d ∷ ds) h k = elim (Bool-cases (lexicographic_less d c)) [
  | inl e ↦ rw e (k.0, All-insert a c ds h k.1)
  | inr e ↦ rw e (h, k)
]

insert-IsSorted : (c : Condition) (ds : Conditions) → IsSorted ds → IsSorted (insert c ds)
unfolding insert
insert-IsSorted c [] h = (tt, tt)
insert-IsSorted c (d ∷ ds) h = elim (Bool-cases (lexicographic_less d c)) [
  | inl e ↦ rw e (All-insert d c ds (less_asymm d c e) h.0, insert-IsSorted c ds h.1)
  | inr e ↦ rw e ((e, All-Follows c d ds e h.0), h)
]

pub sort-IsSorted : (cs : Conditions) → IsSorted (sort cs)
unfolding sort
sort-IsSorted [] = tt
sort-IsSorted (c ∷ cs) = insert-IsSorted c (sort cs) (sort-IsSorted cs)

insert-IsDistinct :
    (c : Condition) (ds : Conditions)
    → get ds c.type ≡ none
    → IsDistinct ds
    → IsDistinct (insert c ds)
unfolding insert get
insert-IsDistinct c [] h k = (refl, tt)
insert-IsDistinct c (d ∷ ds) h k = ground (
  arith,
  get-insert c ds d.type,
  ==_iff c.type d.type,
  ==_iff d.type c.type,
  insert-IsDistinct c ds,
)

sort-IsDistinct : (cs : Conditions) → IsDistinct cs → IsDistinct (sort cs)
unfolding sort
sort-IsDistinct [] h = tt
sort-IsDistinct (c ∷ cs) h =
    insert-IsDistinct c (sort cs) (get-sort cs c.type ∙ h.0) (sort-IsDistinct cs h.1)

pub sort-IsCanonical : (cs : Conditions) → IsDistinct cs → IsCanonical (sort cs)
sort-IsCanonical cs h = record { sorted = sort-IsSorted cs; distinct = sort-IsDistinct cs h }

append-IsDistinct :
    (cs : Conditions) (c : Condition)
    → get cs c.type ≡ none
    → IsDistinct cs
    → IsDistinct (cs ++ c ∷ [])
unfolding get
append-IsDistinct [] c h k = (refl, tt)
append-IsDistinct (d ∷ ds) c h k = ground (
  arith,
  get-append ds c c.type d.type refl,
  ==_iff c.type d.type,
  ==_iff d.type c.type,
  append-IsDistinct ds c,
)

place-IsDistinct :
    (c e : Condition) (cs : Conditions)
    → get cs c.type ≡ some e
    → IsDistinct cs
    → IsDistinct (place c cs)
unfolding get place
place-IsDistinct c e [] h k = tt
place-IsDistinct c e (d ∷ ds) h k = ground (
  arith,
  get-place c e ds c.type d.type refl,
  ==_iff c.type d.type,
  ==_iff d.type c.type,
  place-IsDistinct c e ds,
)

result-IsDistinct :
    (now : Time) (cs : Conditions) (c : Condition) (o : Option Condition)
    → get cs c.type ≡ o
    → IsDistinct cs
    → IsDistinct (result now cs c o).0
result-IsDistinct now cs c none h k =
    append-IsDistinct cs (stamped now c) (rw (stamped-type now c) h) k
result-IsDistinct now cs c (some e) h k =
    place-IsDistinct (rewritten now e c) e cs (rw (rewritten-type now e c) h) k

-- Where no two conditions have one type, they are sorted after `Set` by the order that it uses,
-- and still no two have one type.
pub set_condition-IsCanonical :
    (now : Time) (cs : Conditions) (c : Condition)
    → IsDistinct cs
    → IsCanonical (set_condition now cs c).0
unfolding set_condition
set_condition-IsCanonical now cs c h = rw (overwrite_lem now c cs) record {
  sorted = sort-IsSorted (result now cs c (get cs c.type)).0;
  distinct =
      sort-IsDistinct (result now cs c (get cs c.type)).0
        (result-IsDistinct now cs c (get cs c.type) refl h);
}

All-delete :
    (a : Condition) (cs : Conditions) (t : ConditionType)
    → All (Follows a) cs
    → All (Follows a) (delete cs t)
unfolding delete
All-delete a [] t h = tt
All-delete a (c ∷ cs) t h = ground (arith, All-delete a cs t)

delete-IsSorted : (cs : Conditions) (t : ConditionType) → IsSorted cs → IsSorted (delete cs t)
unfolding delete
delete-IsSorted [] t h = tt
delete-IsSorted (c ∷ cs) t h = ground (arith, delete-IsSorted cs t, All-delete c cs t h.0)

delete-IsDistinct : (cs : Conditions) (t : ConditionType) → IsDistinct cs → IsDistinct (delete cs t)
unfolding delete
delete-IsDistinct [] t h = tt
delete-IsDistinct (c ∷ cs) t h = ground (arith, delete-IsDistinct cs t, get-delete cs t c.type)

-- Conditions that are sorted and have no type twice are left so by `Delete`.
pub delete-IsCanonical :
    (cs : Conditions) (t : ConditionType) → IsCanonical cs → IsCanonical (delete cs t)
delete-IsCanonical cs t h = record {
  sorted = delete-IsSorted cs t h.sorted;
  distinct = delete-IsDistinct cs t h.distinct;
}
