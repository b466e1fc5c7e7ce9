-- ===== src/Tests/OnConfigure.antt =====
-- A configuration from the default parameters and one contract.
use rosetta_recorder_cpp.Prelude.{
  ℕ, ◌≡◌, refl, codes, Bool, true, false, none, some, [], Outcome, ok, throw, ◌>>=◌, text_eq,
}
use rosetta_recorder_cpp.Directory.{epoch, parse_bag_name_style}
use rosetta_recorder_cpp.Episode.Configure.{
  Parameters, declare_parameters, Host, State, prepare, on_configure, read_contract_file, make_base,
  read_values, read_style, compile_excluded, compile_included, include_pattern, join_included,
}
use rosetta_recorder_cpp.Episode.Configure.Middleware.{Middleware}
use rosetta_recorder_cpp.Process.{
  StateMachine, StateMachineLaws, inactive, unconfigured, active, Spin, main,
}
use rosetta_recorder_cpp.Process.Exits.{Exits, main-Exits}
use rosetta_recorder_cpp.Tests.Samples.{floats, rmw, yaml_of}
use rosetta_recorder_cpp.Tests.OnContract.{sample_root, load_sample}
use rosetta_recorder_cpp.Tests.OnEpisode.{settings, idle_node, around}

abbrev pub parameters : Parameters ℕ
parameters = record (declare_parameters floats false) { contract_path = codes "c.yaml" }

-- Every text is a pattern, and matches nothing.
abbrev pub host : Host
host = record {
  create_directories_error = λ path. false;
  exists = λ path. true;
  read_text = λ path. none;
  regex = λ pattern. some (λ name. false);
}

abbrev pub fresh : State ℕ
fresh = record {
  node = idle_node;
  config = record {
    settings = settings;
    bag_base = [];
    feedback_rate_hz = 2;
    embed_contract = true;
    contract_text = [];
    bag_name_style = epoch;
    exclude_regex = none;
    include_regex = none;
  };
}

-- The middleware refuses no topic, but the third interface.
abbrev middleware : Middleware
middleware = record { subscription_error = λ spec. false; interface_error = some 2 }

abbrev machine : StateMachine
machine = record {
  configured = λ success. elim success [ true ↦ inactive | false ↦ unconfigured ];
  activated = λ success. elim success [ true ↦ active | false ↦ inactive ];
  base_on_activate = true;
}

machine_laws : StateMachineLaws machine
machine_laws = record {
  configured_success = refl;
  configured_failure = refl;
  activated_success = refl;
  base_success = refl;
}

abbrev spin : Spin ℕ
spin = λ st. throw (st, codes "bad allocation")

main-Exits_example :
    Exits floats
      (yaml_of sample_root)
      rmw
      host
      parameters
      around
      spin
      fresh
      false
      (main floats (yaml_of sample_root) rmw host parameters around machine spin false fresh)
main-Exits_example =
    main-Exits floats (yaml_of sample_root) rmw host parameters around machine spin false fresh
      machine_laws

abbrev pub succeeds : {A : Type 0} → {E : Type 0} → Outcome E A → Bool
succeeds (ok a) = true
succeeds (throw e) = false

configured_test :
    succeeds (on_configure floats (yaml_of sample_root) rmw host parameters fresh) ≡ true
unfolding on_configure prepare read_contract_file make_base read_values read_style compile_excluded
    compile_included include_pattern join_included parse_bag_name_style text_eq ◌>>=◌
configured_test = rw load_sample refl
