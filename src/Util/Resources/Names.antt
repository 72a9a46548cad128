-- ===== src/Util/Resources/Names.antt =====
-- pkg/controller/util/resources.go: label keys and values, name suffixes, volume names.
use atomix_operator.Base.{String}

abbrev pub app_key : String
app_key = "app"

abbrev pub atomix_app : String
atomix_app = "atomix"

abbrev pub cluster_key : String
cluster_key = "cluster"

abbrev pub type_key : String
type_key = "type"

abbrev pub group_key : String
group_key = "group"

abbrev pub management_type : String
management_type = "management"

abbrev pub group_type : String
group_type = "group"

abbrev pub bench_worker_type : String
bench_worker_type = "benchmark-worker"

abbrev pub bench_coordinator_type : String
bench_coordinator_type = "benchmark-coordinator"

abbrev pub service_suffix : String
service_suffix = "service"

abbrev pub disruption_budget_suffix : String
disruption_budget_suffix = "pdb"

abbrev pub init_suffix : String
init_suffix = "init"

abbrev pub config_suffix : String
config_suffix = "config"

abbrev pub init_scripts_volume : String
init_scripts_volume = "init-scripts"

abbrev pub user_config_volume : String
user_config_volume = "user-config"

abbrev pub system_config_volume : String
system_config_volume = "system-config"

abbrev pub data_volume : String
data_volume = "data"
