-- ===== src/Util/Ordinal.antt =====
-- util/util.go: the English ordinal of a number that is not negative.
use Prim.Native.String.{◌++◌ as str_append}
use addonconfig.Common.{ℕ, ◌%◌, String, ◌||◌, ltb, eqb, decimal, if◌then◌else◌}

-- The map `m`, on the keys 0 to 9.
suffix : ℕ → String
suffix d = if eqb d 1 then "st" else if eqb d 2 then "nd" else if eqb d 3 then "rd" else "th"

unfoldable pub ordinal_suffix : ℕ → String
unfolding suffix
ordinal_suffix n = if ltb n 10 then suffix n else suffix (n % 10)

unfoldable pub ordinalize : ℕ → String
unfolding ordinal_suffix decimal
ordinalize n = str_append (decimal n) (ordinal_suffix n)

-- The suffix that English writes: that of the last digit, but "th" for 11, 12 and 13.
pub english_suffix : ℕ → String
english_suffix n =
    if eqb (n % 100) 11 || eqb (n % 100) 12 || eqb (n % 100) 13
    then "th"
    else if eqb (n % 10) 1
    then "st"
    else if eqb (n % 10) 2
    then "nd"
    else if eqb (n % 10) 3
    then "rd"
    else "th"
