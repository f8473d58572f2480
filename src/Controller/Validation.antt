-- ===== src/Controller/Validation.antt =====
-- controllers/addonconfig_controller_phases.go: the validation without an error.
use addonconfig.Common.{List}
use addonconfig.Api.Condition.{Conditions}
use addonconfig.Controller.External.{External}
use addonconfig.Controller.Context.{Context}
