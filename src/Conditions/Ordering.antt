-- ===== src/Conditions/Ordering.antt =====
-- The order in which `Set` stores conditions, described by their types.
use addonconfig.Common.{
  ◌≡◌, ◌≢◌, ◌⊎◌, true, none, [], ◌∷◌, ==_iff, All, str_ltb, str_ltb_total, arith,
}
use addonconfig.Api.Condition.{Condition, Conditions, Time, ready_condition}
use addonconfig.Conditions.Getter.{get}
use addonconfig.Conditions.Setter.{lexicographic_less, set_condition}
use addonconfig.Conditions.Order.{Follows, IsSorted, IsDistinct, set_condition-IsCanonical}

-- `a` may stand before `b`: the type of `b` is not Ready, and that of `a` is Ready or comes before it
-- in the order of texts.
abbrev pub Precedes : Condition → Condition → Type 0
Precedes a b =
    (b.type ≢ ready_condition) × ((a.type ≡ ready_condition) ⊎ (str_ltb a.type b.type ≡ true))

-- Every condition may stand before all that follow it.
abbrev pub IsOrdered : Conditions → Type 0
IsOrdered [] = Unit
IsOrdered (c ∷ cs) = All (Precedes c) cs × IsOrdered cs

Follows-Precedes : (c d : Condition) → Follows c d → c.type ≢ d.type → Precedes c d
unfolding lexicographic_less
Follows-Precedes c d h apart = ground (
  arith,
  ==_iff c.type ready_condition,
  ==_iff d.type ready_condition,
  str_ltb_total c.type d.type,
)

All-Precedes :
    (c : Condition) (cs : Conditions)
    → All (Follows c) cs
    → get cs c.type ≡ none
    → All (Precedes c) cs
unfolding get
All-Precedes c [] h absent = tt
All-Precedes c (d ∷ ds) h absent =
    ground (arith, All-Precedes c ds, Follows-Precedes c d, ==_iff d.type c.type)

IsSorted-IsOrdered : (cs : Conditions) → IsSorted cs → IsDistinct cs → IsOrdered cs
IsSorted-IsOrdered [] h k = tt
IsSorted-IsOrdered (c ∷ cs) h k = (All-Precedes c cs h.0 k.0, IsSorted-IsOrdered cs h.1 k.1)

-- Where no type stood twice, `Set` leaves the conditions in order: Ready first if it is there, and then
-- the others with their types ascending, none of them twice.
pub set_condition-IsOrdered :
    (now : Time) (cs : Conditions) (c : Condition)
    → IsDistinct cs
    → IsOrdered (set_condition now cs c).0
set_condition-IsOrdered now cs c h =
    let canonical = set_condition-IsCanonical now cs c h in
    IsSorted-IsOrdered (set_condition now cs c).0 canonical.sorted canonical.distinct
