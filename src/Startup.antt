-- ===== src/Startup.antt =====
-- main.go, and SetupWithManager of controllers/addonconfig_controller.go: how the program starts. The
-- calls of controller-runtime are parameters that change a world; a program that has ended is its exit
-- code with the message that it has logged before, if any.
use addonconfig.Common.Result.{Result, ok, err}
use addonconfig.Common.{ℕ, String, Bool, false, Option, none, some, ◌≡◌, refl, arith}

-- The variables that the flags are read into.
pub record Flags : Type 0 where
  pub metrics_addr : String
  pub probe_addr : String
  pub enable_leader_election : Bool

-- ctrl.Options, with the fields that are set.
pub record ManagerOptions : Type 0 where
  pub metrics_bind_address : String
  pub port : ℕ
  pub health_probe_bind_address : String
  pub leader_election : Bool
  pub leader_election_id : String

-- What `NewControllerManagedBy` is told: the kind that is reconciled, and the kind that is watched.
pub record ControllerPlan : Type 0 where
  pub for_kind : String
  pub watched_kind : String

-- The values of the flags where the command line sets none.
abbrev pub flag_defaults : Flags
flag_defaults = record {
  metrics_addr = ":8080";
  probe_addr = ":8081";
  enable_leader_election = false;
}

unfoldable pub manager_options : Flags → ManagerOptions
manager_options f = record {
  metrics_bind_address = f.metrics_addr;
  port = 9443;
  health_probe_bind_address = f.probe_addr;
  leader_election = f.enable_leader_election;
  leader_election_id = "f1392e8d.tvs.io";
}

-- What main.go calls: `flag.Parse`, the registrations of the three schemes, NewManager, Complete of the
-- builder, AddHealthzCheck, AddReadyzCheck and Start.
pub record Runtime (World Manager Error : Type 0) : Type 1 where
  pub parse_flags : Flags → Flags
  pub add_clientgo : World → World × Option Error
  pub add_addon : World → World × Option Error
  pub add_cluster : World → World × Option Error
  pub new_manager : ManagerOptions → World → World × Result Error Manager
  pub complete : Manager → ControllerPlan → World → World × Option Error
  pub add_healthz_check : Manager → String → World → World × Option Error
  pub add_readyz_check : Manager → String → World → World × Option Error
  pub start : Manager → World → World × Option Error

module _ {World Manager Error : Type 0} (r : Runtime World Manager Error) where
  -- How the program ends: the world, the exit code, and the message logged with an error.
  pub record Ended : Type 0 where
    pub world : World
    pub code : ℕ
    pub message : Option String

  abbrev exit_1 : World → String → Ended
  exit_1 w message = record { world = w; code = 1; message = some message }

  -- A step whose error ends the program.
  abbrev or_exit : World × Option Error → String → (World → Ended) → Ended
  or_exit (w, none) message rest = rest w
  or_exit (w, some e) message rest = exit_1 w message

  -- `init`; `none` where `utilruntime.Must` panics.
  abbrev must : World × Option Error → (World → Option World) → Option World
  must (w, none) rest = rest w
  must (w, some e) rest = none

  unfoldable pub init : World → Option World
  init w =
      must (r.add_clientgo w) (λ w1. must (r.add_addon w1) (λ w2. must (r.add_cluster w2) some))

  -- `SetupWithManager`
  unfoldable pub setup_with_manager : Manager → World → World × Option Error
  setup_with_manager mgr w =
      r.complete mgr (record { for_kind = "AddonConfig"; watched_kind = "AddonConfigDefinition" }) w

  -- What `main` does with the manager.
  unfoldable pub run_manager : Manager → World → Ended
  unfolding setup_with_manager
  run_manager mgr w = or_exit (setup_with_manager mgr w) "unable to create controller" (λ w1.
      or_exit (r.add_healthz_check mgr "healthz" w1) "unable to set up health check" (λ w2.
        or_exit (r.add_readyz_check mgr "readyz" w2) "unable to set up ready check" (λ w3.
          or_exit (r.start mgr w3) "problem running manager"
            (λ w4. record { world = w4; code = 0; message = none }))))

  unfoldable pub main : World → Ended
  unfolding run_manager manager_options
  main w =
      let (w', made) = r.new_manager (manager_options (r.parse_flags flag_defaults)) w in
      elim made [ err e ↦ exit_1 w' "unable to start manager" | ok mgr ↦ run_manager mgr w' ]

  or_exit-code :
      (step : World × Option Error) (message : String) (rest : World → Ended)
      → (or_exit step message rest).code ≡ 0
      → (step.1 ≡ none) × ((rest step.0).code ≡ 0)
  or_exit-code (w, none) message rest h = (refl, h)
  or_exit-code (w, some e) message rest h = absurd (omega arith)

  -- A manager whose run ends with code 0 has been started, after the controller and the two checks have
  -- been registered without an error, and has stopped without one.
  run_manager-code :
      (mgr : Manager) (w : World)
      → (run_manager mgr w).code ≡ 0
      → let w1 = setup_with_manager mgr w in
        let w2 = r.add_healthz_check mgr "healthz" w1.0 in
        let w3 = r.add_readyz_check mgr "readyz" w2.0 in
        (w1.1 ≡ none) × (w2.1 ≡ none) × (w3.1 ≡ none) × ((r.start mgr w3.0).1 ≡ none)
  unfolding run_manager
  run_manager-code mgr w h =
      let (a, h1) = or_exit-code _ _ _ h in
      let (b, h2) = or_exit-code _ _ _ h1 in
      let (c, h3) = or_exit-code _ _ _ h2 in let (d, h4) = or_exit-code _ _ _ h3 in (a, b, c, d)
