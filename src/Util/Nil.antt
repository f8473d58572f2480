-- ===== src/Util/Nil.antt =====
-- util/util.go: whether an interface holds nothing. The calls of reflect are parameters.
use addonconfig.Common.{Bool, true, false, ◌&&◌, Option, none, some}

-- reflect.Kind, with the kinds that are asked for.
pub data Kind : Type 0 where
  pointer : Kind
  map_kind : Kind
  channel : Kind
  slice : Kind
  interface : Kind
  unsafe_pointer : Kind
  function : Kind
  other_kind : Kind

-- The cases of the switch.
abbrev may_be_nil : Kind → Bool
may_be_nil pointer = true
may_be_nil map_kind = true
may_be_nil channel = true
may_be_nil slice = true
may_be_nil interface = true
may_be_nil unsafe_pointer = true
may_be_nil function = true
may_be_nil other_kind = false

-- `IsNil`, of an interface that is nil or holds a value; `kind`, `is_valid` and `is_nil_value` are
-- TypeOf(i).Kind(), ValueOf(i).IsValid() and ValueOf(i).IsNil() of reflect.
unfoldable pub is_nil :
    {Value : Type 0}
    → (kind : Value → Kind) → (is_valid is_nil_value : Value → Bool) → Option Value
    → Bool
is_nil kind is_valid is_nil_value none = true
is_nil kind is_valid is_nil_value (some v) = may_be_nil (kind v) && is_valid v && is_nil_value v
