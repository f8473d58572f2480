-- ===== src/Controller/Settled/Forms.antt =====
-- controllers: the forms that the functions of a run have, for what they write.
use addonconfig.Common.{◌≡◌, refl, sym, ap, ◌∙◌, List, [], ◌∷◌, arith}
use addonconfig.Api.Condition.{Condition, ConditionType}
use addonconfig.Api.Config.{AddonConfig}
use addonconfig.Controller.External.{External}
use addonconfig.Controller.Context.{Context, Outcome}
use addonconfig.Controller.Settled.Uniform.{
  Scratch, dressed, scratch_of, blank, Within, Uniform, Unread, Only, along, apart,
}
use addonconfig.Controller.Settled.Writes.{Status, Write, mark, write, write_all, count, tally}

module _ (x : External) (ac : AddonConfig x.Raw) where
  -- For a function that leaves the values as they are.
  pub by_writes :
      {B : Type 0} (f : Context x → Context x × B) (k : Scratch x ac) (v : x.Raw)
      (types : List ConditionType) (ws : List Write)
      → Within x ac types ws
      → ((s : Status)
          → f (dressed x ac k v s) ≡ (
            dressed x ac
                (scratch_of x ac (f (dressed x ac k v (blank x ac))).0)
                v
                (write_all x.clock s ws),
            (f (dressed x ac k v (blank x ac))).1,
          ))
      → Uniform x ac f k (Only x ac v) (Only x ac v) types
  by_writes f k v types ws within same = record {
    core = scratch_of x ac (f (dressed x ac k v (blank x ac))).0;
    value = (f (dressed x ac k v (blank x ac))).1;
    writes = ws;
    within = within;
    runs = λ u here s. (v, refl, ap (λ r. f (dressed x ac k r s)) here ∙ same s);
  }

  pub by_writes_anyhow :
      {B : Type 0} (f : Context x → Context x × B) (k : Scratch x ac) (v : x.Raw)
      (types : List ConditionType) (ws : List Write)
      → Within x ac types ws
      → ((u : x.Raw) (s : Status)
          → f (dressed x ac k u s) ≡ (
            dressed x ac
                (scratch_of x ac (f (dressed x ac k v (blank x ac))).0)
                u
                (write_all x.clock s ws),
            (f (dressed x ac k v (blank x ac))).1,
          ))
      → Unread x ac f k types
  by_writes_anyhow f k v types ws within same = record {
    core = scratch_of x ac (f (dressed x ac k v (blank x ac))).0;
    value = (f (dressed x ac k v (blank x ac))).1;
    writes = ws;
    within = within;
    runs = same;
  }

  -- For one that writes nothing.
  pub quiet :
      {B : Type 0} (f : Context x → Context x × B) (k : Scratch x ac) (v : x.Raw)
      (types : List ConditionType)
      → ((s : Status)
          → f (dressed x ac k v s) ≡ (
            dressed x ac (scratch_of x ac (f (dressed x ac k v (blank x ac))).0) v s,
            (f (dressed x ac k v (blank x ac))).1,
          ))
      → Uniform x ac f k (Only x ac v) (Only x ac v) types
  unfolding count write_all
  quiet f k v types same = by_writes f k v types [] (λ t other. omega arith) same

  -- For one that marks one condition.
  pub marking :
      {B : Type 0} (f : Context x → Context x × B) (k : Scratch x ac) (v : x.Raw) (c : Condition)
      → ((s : Status)
          → f (dressed x ac k v s) ≡ (
            dressed x ac
                (scratch_of x ac (f (dressed x ac k v (blank x ac))).0)
                v
                (write x.clock s (mark c)),
            (f (dressed x ac k v (blank x ac))).1,
          ))
      → Uniform x ac f k (Only x ac v) (Only x ac v) (c.type ∷ [])
  unfolding count tally write_all
  marking f k v c same = by_writes f k v (c.type ∷ []) (mark c ∷ []) (λ t other. omega arith) same

module _ (x : External) (ac : AddonConfig x.Raw) (k : Scratch x ac) (v : x.Raw) where
  abbrev pub KeepsValues : (Context x → Outcome x) → List ConditionType → Type 0
  KeepsValues f types = Uniform x ac (apart x ac f) k (Only x ac v) (Only x ac v) types

  pub as_does :
      (f g : Context x → Outcome x) (types : List ConditionType)
      → KeepsValues g types
      → ((s : Status) → apart x ac f (dressed x ac k v s) ≡ apart x ac g (dressed x ac k v s))
      → KeepsValues f types
  as_does f g types u same =
      along x ac (apart x ac f) (apart x ac g) k k (Only x ac v) (Only x ac v) types
        (λ u s here.
          ap (λ r. apart x ac f (dressed x ac k r s)) here
          ∙ same s
          ∙ sym (ap (λ r. apart x ac g (dressed x ac k r s)) here))
        u
