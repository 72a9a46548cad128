-- ===== src/Util/Resources/Volumes.antt =====
-- pkg/controller/util/resources.go: volumes, their mounts and the claims.
use atomix_operator.Base.{String, pos, Option, none, some, List, [], ◌∷◌, Result, ok, bind}
use atomix_operator.Kube.Meta.{Foreign, new_object_meta}
use atomix_operator.Kube.Pod.{Volume, VolumeMount, empty_dir_volume_source}
use atomix_operator.Kube.Objects.{PersistentVolumeClaim}
use atomix_operator.Util.Resources.Names.{
  init_scripts_volume, user_config_volume, system_config_volume, data_volume,
}

unfoldable pub new_data_volume_mount : VolumeMount
new_data_volume_mount = record { name = data_volume; mount_path = "/var/lib/atomix" }

unfoldable pub new_user_config_volume_mount : VolumeMount
new_user_config_volume_mount = record { name = user_config_volume; mount_path = "/etc/atomix/user" }

unfoldable pub new_system_config_volume_mount : VolumeMount
new_system_config_volume_mount = record {
  name = system_config_volume;
  mount_path = "/etc/atomix/system";
}

unfoldable pub new_persistent_volume_mounts : List VolumeMount
unfolding new_data_volume_mount new_user_config_volume_mount new_system_config_volume_mount
new_persistent_volume_mounts =
    new_data_volume_mount ∷ new_user_config_volume_mount ∷ new_system_config_volume_mount ∷ []

unfoldable pub new_ephemeral_volume_mounts : List VolumeMount
unfolding new_user_config_volume_mount new_system_config_volume_mount
new_ephemeral_volume_mounts = new_user_config_volume_mount ∷ new_system_config_volume_mount ∷ []

unfoldable pub new_init_scripts_volume : String → Volume
new_init_scripts_volume name = record {
  name = init_scripts_volume;
  volume_source = record {
    config_map = some (record {
      local_object_reference = record { name = name };
      default_mode = some (pos 0o744);
    });
    empty_dir = none;
  };
}

unfoldable pub new_user_config_volume : String → Volume
new_user_config_volume name = record {
  name = user_config_volume;
  volume_source = record {
    config_map =
        some (record { local_object_reference = record { name = name }; default_mode = none });
    empty_dir = none;
  };
}

unfoldable pub new_system_config_volume : Volume
new_system_config_volume = record {
  name = system_config_volume;
  volume_source = record { config_map = none; empty_dir = some empty_dir_volume_source };
}

-- `resource.ParseQuantity` is a parameter.
module _ {F : Foreign} {E : Type 0} (parse_quantity : String → Result E F.Quantity) where
  unfoldable pub new_persistent_volume_claim :
      Option String → String → Result E (PersistentVolumeClaim F)
  new_persistent_volume_claim class_name size = bind (parse_quantity size) λ quantity. ok (record {
    metadata = new_object_meta data_volume "" [] [];
    spec = record {
      storage_class_name = class_name;
      access_modes = "ReadWriteOnce" ∷ [];
      resources = record { limits = []; requests = ("storage", quantity) ∷ [] };
    };
  })

  unfoldable pub new_persistent_volume_claims :
      Option String → String → Result E (List (PersistentVolumeClaim F))
  unfolding new_persistent_volume_claim
  new_persistent_volume_claims class_name size =
      bind (new_persistent_volume_claim class_name size) λ claim. ok (claim ∷ [])
