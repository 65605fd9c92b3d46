-- ===== src/Workloads/Pod.antt =====
-- The parts of a workload that internal/workloads/workload_modifier.go reads and changes. Fields that
-- it hands on are one opaque text.
use dash0_operator.Base.{ℕ, String, Bool, Option, List}

-- corev1.EnvVarSource
pub data Source : Type 0 where
  field_ref : String → Source
  other_source : String → Source

pub record EnvVar : Type 0 where
  pub name : String
  pub value : String
  pub value_from : Option Source

abbrev pub Env : Type 0
Env = List EnvVar

pub record VolumeMount : Type 0 where
  pub name : String
  pub mount_path : String
  pub sub_path : String
  pub rest : String

-- A resource.Quantity in its representation, which reflect.DeepEqual compares: a number to be multiplied by
-- a power of ten, the format, and the text that is kept when the quantity has been printed or parsed.
pub record Quantity : Type 0 where
  pub number : ℕ
  pub scale : ℕ
  pub format : String
  pub text : String

pub data VolumeSource : Type 0 where
  -- the reference and the pull policy
  image_volume : String → String → VolumeSource
  -- the size limit
  empty_dir : Quantity → VolumeSource
  other_volume : String → VolumeSource

pub record Volume : Type 0 where
  pub name : String
  pub volume_source : VolumeSource

-- The security context of the init container, where it depends on the pod and the configuration.
pub record SecurityContext : Type 0 where
  pub run_as_non_root : Option String
  pub run_as_user : Option ℕ
  pub run_as_group : Option ℕ
  pub rest : String

pub record Resources : Type 0 where
  -- limits["ephemeral-storage"] in bytes
  pub ephemeral_storage_limit : Option ℕ
  -- all else, and how the quantities are represented
  pub rest : String

pub record Container : Type 0 where
  pub name : String
  pub image : String
  pub image_pull_policy : String
  pub env : Env
  pub volume_mounts : List VolumeMount
  pub resources : Resources
  pub security_context : Option SecurityContext
  pub rest : String

pub data SelectorOperator : Type 0 where
  op_in op_not_in op_other : SelectorOperator

pub record MatchExpression : Type 0 where
  pub key : String
  pub operator : SelectorOperator
  pub values : List String

pub record PodSecurityContext : Type 0 where
  pub run_as_non_root : Option String
  pub fs_group : Option ℕ
  pub rest : String

pub record PodSpec : Type 0 where
  pub os_name : Option String
  pub node_selector : List (String × String)
  -- the required node affinity terms during scheduling; none where a pointer on the way is nil
  pub node_selector_terms : Option (List (List MatchExpression))
  pub security_context : Option PodSecurityContext
  pub volumes : List Volume
  pub init_containers : List Container
  pub containers : List Container
  pub rest : String

pub record OwnerReference : Type 0 where
  pub api_version : String
  pub kind : String

-- Maps of texts, by key; a key occurs once.
abbrev pub Map : Type 0
Map = List (String × String)

pub record ObjectMeta : Type 0 where
  pub labels : Map
  pub annotations : Map
  pub owner_references : List OwnerReference

-- A workload with a pod template: a Deployment, DaemonSet, StatefulSet, ReplicaSet, Job or CronJob.
pub record Workload : Type 0 where
  pub meta : ObjectMeta
  pub pod_meta : ObjectMeta
  pub spec : PodSpec

-- The fields of ClusterInstrumentationConfig that are read, and the resolved delivery.
pub record ClusterConfig : Type 0 where
  pub operator_image : String
  pub init_container_image : String
  pub init_container_image_pull_policy : String
  pub init_container_resources : Resources
  pub otel_collector_base_url : String
  pub service_base_url : String
  pub instrumentation_debug : Bool
  pub enable_python : Bool
  pub enable_ruby : Bool
  pub is_open_shift : Bool

pub record NamespaceConfig : Type 0 where
  pub trace_context_propagators : Option String
  pub previous_trace_context_propagators : Option String
  pub capture_sql_query_parameters : Option Bool
  pub previous_capture_sql_query_parameters : Option Bool
  pub log_collection_enabled : Bool
  pub previous_log_collection_enabled : Bool

pub record ResourceModifier : Type 0 where
  pub cluster : ClusterConfig
  pub namespace : NamespaceConfig
  pub is_image_volume : Bool
  pub actor : String
