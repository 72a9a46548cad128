-- ===== src/Tests/Registration.antt =====
-- The theorems on the registration, with managers that keep a list of what they accept.
use atomix_operator.Base.{◌≡◌, refl, sym, ok-injective, String, ok, err, List, [], ◌∷◌, ◌++◌}
use atomix_operator.Controller.Client.{
  atomix_cluster, atomix_benchmark, partition_group, stateful_set, pod,
}
use atomix_operator.Controller.Registration.{
  Manager, Step, add_reconciler, add_benchmark, add_partition_group, add_all, add_to_manager,
}
use atomix_operator.Controller.Registration.Laws.{
  Registered, controller, watches, Log, registrations, add_all_stops, add_to_manager_registers,
}
use atomix_operator.Tests.Memory.{Failure, message}

abbrev pub recorder : Manager Failure
recorder = record {
  State = List Registered;
  Handle = String;
  new = λ name resource s. (s ++ controller name resource ∷ [], ok name);
  watch = λ c type handler s. (s ++ watches c type handler ∷ [], ok tt);
}

abbrev pub recorder_log : Log recorder
recorder_log = record {
  log = λ s. s;
  name_of = λ c. c;
  log-new = λ name resource s e. (sym (ok-injective e), refl);
  log-watch = λ c type handler s e. refl;
}

add_to_manager_registers_example :
    (add_to_manager recorder []).0
    ≡ registrations "benchmark-controller" atomix_benchmark pod
      ++ registrations "atomixcluster-controller" atomix_cluster stateful_set
      ++ registrations "partitiongroup-controller" partition_group stateful_set
unfolding add_to_manager add_reconciler
add_to_manager_registers_example = add_to_manager_registers recorder recorder_log [] refl

-- A step of a manager that has stopped.
abbrev stopped : Step recorder (Unit {0})
stopped s = (s, err (message "the manager has stopped"))

add_all_stops_example :
    add_all recorder (add_benchmark recorder ∷ stopped ∷ add_partition_group recorder ∷ []) [] ≡ (
      registrations "benchmark-controller" atomix_benchmark pod,
      err (message "the manager has stopped"),
    )
unfolding add_benchmark add_all add_reconciler
add_all_stops_example =
    add_all_stops recorder (add_benchmark recorder ∷ []) (add_partition_group recorder ∷ []) stopped
      [] (registrations "benchmark-controller" atomix_benchmark pod)
      (registrations "benchmark-controller" atomix_benchmark pod)
      (message "the manager has stopped") refl refl
