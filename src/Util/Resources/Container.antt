-- ===== src/Util/Resources/Container.antt =====
-- pkg/controller/util/resources.go: containers.
use atomix_operator.Base.{ℤ, pos, String, ◌<>◌, true, none, some, List, [], ◌∷◌, sprint}
use atomix_operator.Kube.Meta.{Foreign}
use atomix_operator.Kube.Pod.{Container, EnvVar, ResourceRequirements, VolumeMount, Probe, int_type}
use atomix_operator.Util.Resources.Names.{init_scripts_volume, system_config_volume}
use atomix_operator.Util.Resources.Volumes.{
  new_persistent_volume_mounts, new_ephemeral_volume_mounts,
}

-- The HTTP check of `/v1/status` on port 5678 that both probes make.
abbrev status_probe : ℤ → Probe
status_probe failure_threshold = record {
  handler = record {
    http_get = some (record {
      path = "/v1/status";
      port = record { type = int_type; int_val = pos 5678; str_val = "" };
    });
  };
  initial_delay_seconds = pos 60;
  timeout_seconds = pos 10;
  failure_threshold = failure_threshold;
}

module _ {F : Foreign} where
  unfoldable pub new_init_container : ℤ → Container F
  new_init_container size = record {
    name = "configure";
    image = "ubuntu:16.04";
    image_pull_policy = "";
    command =
        "bash" ∷ "-c" ∷ "/scripts/create_config.sh $ATOMIX_NODES > /config/atomix.properties" ∷ [];
    args = [];
    env = record { name = "ATOMIX_NODES"; value = sprint size; value_from = none } ∷ [];
    resources = record { limits = []; requests = [] };
    ports = [];
    security_context = none;
    readiness_probe = none;
    liveness_probe = none;
    volume_mounts =
        record { name = init_scripts_volume; mount_path = "/scripts" }
        ∷ record { name = system_config_volume; mount_path = "/config" }
        ∷ [];
  }

  unfoldable pub new_init_containers : ℤ → List (Container F)
  unfolding new_init_container
  new_init_containers size = new_init_container size ∷ []

  unfoldable pub new_container :
      String
      → List String
      → List (EnvVar F)
      → ResourceRequirements F
      → List VolumeMount
      → Container F
  new_container image args env resources volume_mounts = record {
    name = "atomix";
    image = image;
    image_pull_policy = "Always";
    command = [];
    args = args;
    env = env;
    resources = resources;
    ports =
        record { name = "client"; container_port = pos 5678 }
        ∷ record { name = "server"; container_port = pos 5679 }
        ∷ [];
    security_context = some (record { privileged = some true });
    readiness_probe = some (status_probe (pos 6));
    liveness_probe = some (status_probe (pos 0));
    volume_mounts = volume_mounts;
  }

  unfoldable pub new_benchmark_container :
      String → List (EnvVar F) → ResourceRequirements F → Container F
  unfolding new_container new_ephemeral_volume_mounts
  new_benchmark_container version env resources =
      new_container "atomix/atomix-bench:latest"
        ("agent" ∷ "--config" ∷ "/etc/atomix/system/atomix.properties"
          ∷ "/etc/atomix/user/atomix.conf" ∷ [])
        env resources new_ephemeral_volume_mounts

  unfoldable pub new_benchmark_containers :
      String → List (EnvVar F) → ResourceRequirements F → List (Container F)
  unfolding new_benchmark_container
  new_benchmark_containers version env resources =
      new_benchmark_container version env resources ∷ []

  unfoldable pub new_persistent_container :
      String → List (EnvVar F) → ResourceRequirements F → Container F
  unfolding new_container new_persistent_volume_mounts
  new_persistent_container version env resources =
      new_container ("atomix/atomix:" <> version)
        ("--config" ∷ "/etc/atomix/system/atomix.properties" ∷ "/etc/atomix/user/atomix.conf"
          ∷ "--ignore-resources" ∷ "--data-dir=/var/lib/atomix/data" ∷ "--log-level=INFO"
          ∷ "--file-log-level=OFF" ∷ "--console-log-level=INFO" ∷ [])
        env resources new_persistent_volume_mounts

  unfoldable pub new_persistent_containers :
      String → List (EnvVar F) → ResourceRequirements F → List (Container F)
  unfolding new_persistent_container
  new_persistent_containers version env resources =
      new_persistent_container version env resources ∷ []

  unfoldable pub new_ephemeral_container :
      String → List (EnvVar F) → ResourceRequirements F → Container F
  unfolding new_container new_ephemeral_volume_mounts
  new_ephemeral_container version env resources =
      new_container ("atomix/atomix:" <> version)
        ("--config" ∷ "/etc/atomix/system/atomix.properties" ∷ "/etc/atomix/user/atomix.conf"
          ∷ "--ignore-resources" ∷ "--log-level=INFO" ∷ "--file-log-level=OFF"
          ∷ "--console-log-level=INFO" ∷ [])
        env resources new_ephemeral_volume_mounts

  unfoldable pub new_ephemeral_containers :
      String → List (EnvVar F) → ResourceRequirements F → List (Container F)
  unfolding new_ephemeral_container
  new_ephemeral_containers version env resources =
      new_ephemeral_container version env resources ∷ []
