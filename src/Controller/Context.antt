-- ===== src/Controller/Context.antt =====
-- controllers/addonconfig_controller.go: the context that the phases of a reconciliation share.
use addonconfig.Common.{ℕ, suc, String, false, Option, none, some, List, []}
use addonconfig.Api.Condition.{severity_error, ConditionType, Conditions, Time}
use addonconfig.Api.Config.{AddonConfig, AddonConfigDefinition}
use addonconfig.Conditions.Setter.{mark_true, mark_false}
use addonconfig.Util.Requeue.{CtrlResult, no_requeue}
use addonconfig.Controller.External.{External, Variables, OutputObject}

module _ (x : External) where
  open x use {Error, Raw, Json, Schema, Internal, clock, new_error, no_validation}

  -- addonConfigContext, with what the run has done outside it: how many conditions it has set, which
  -- numbers the readings of the clock, and the objects given to `CreateOrUpdate`.
  pub record Context : Type 0 where
    pub addon_config : AddonConfig Raw
    pub addon_config_definition : AddonConfigDefinition Schema
    pub custom_resource_validation : Internal
    pub template_variables : Variables Json
    pub rendered_template : String
    pub marks : ℕ
    pub saved : List OutputObject

  -- A function of the reconciler: `(ctrl.Result, error)`, and the context as it leaves it.
  abbrev pub Outcome : Type 0
  Outcome = Context × CtrlResult × Option Error

  abbrev pub Phase : Type 0
  Phase = Context → Outcome

  abbrev pub no_definition : AddonConfigDefinition Schema
  no_definition = record {
    uid = "";
    schema = none;
    dependencies = [];
    template = "";
    output_resource = record { local_output = none; remote_output = none };
  }

  unfoldable pub new_addon_config_context : AddonConfig Raw → Context
  new_addon_config_context ac = record {
    addon_config = ac;
    addon_config_definition = no_definition;
    custom_resource_validation = no_validation;
    template_variables = record {
      cluster_meta = none;
      infrastructure = "";
      dependencies = [];
      values = none;
    };
    rendered_template = "";
    marks = 0;
    saved = [];
  }

  abbrev pub with_config : Context → AddonConfig Raw → Context
  with_config atx ac = record atx { addon_config = ac }

  -- One writing of the AddonConfig's conditions, at the next reading of the clock.
  abbrev pub write_conditions : Context → (Time → Conditions → Conditions) → Context
  write_conditions atx write = record atx {
    addon_config = record (atx.addon_config) {
      conditions = write (clock atx.marks) atx.addon_config.conditions;
    };
    marks = suc atx.marks;
  }

  -- conditions.MarkTrue on the AddonConfig.
  unfoldable pub mark_config_true : Context → ConditionType → Context
  unfolding mark_true
  mark_config_true atx t = write_conditions atx (λ now cs. mark_true now cs t)

  -- conditions.MarkFalse on the AddonConfig; every call of the controllers has the severity Error.
  unfoldable pub mark_config_false :
      Context → ConditionType → (reason message_format : String) → List String → Context
  unfolding mark_false
  mark_config_false atx t reason message_format message_args =
      write_conditions atx
        (λ now cs. mark_false now cs t reason severity_error message_format message_args)

  abbrev pub done : Context → Outcome
  done atx = (atx, no_requeue, none)

  -- `return ctrl.Result{RequeueAfter: 30 * time.Second}, nil`
  abbrev pub again_in_30_s : Context → Outcome
  again_in_30_s atx = (atx, record { requeue = false; requeue_after = 30_000_000_000 }, none)

  -- `return ctrl.Result{}, err`, where `err` may be nil.
  abbrev pub return_error : Context → Option Error → Outcome
  return_error atx e = (atx, no_requeue, e)

  abbrev pub fail : Context → String → Outcome
  fail atx message = (atx, no_requeue, some (new_error message))
