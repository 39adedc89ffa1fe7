-- ===== src/Otel/Resource.antt =====
-- `Resource` of src/otel/dto.rs: the attributes of the process. What the environment and the build
-- say of it is an argument.
pub mod Upserts
use ohnotel.Base.{
  ℕ, Text, codes, Bool, true, false, List, [], ◌∷◌, ◌++◌, Option, none, some, if◌then◌else◌, ◌≡◌,
  ◌≢◌, refl, sym, ap, ◌∙◌, All, Bool-cases, inl, inr, arith, ◌||◌, ◌==◌,
}
use ohnotel.Model.Value.{Value, KeyValue}
use ohnotel.Model.Sorting.Distinct.{IsDistinctBy}
use ohnotel.Prometheus.{eq_text}
use ohnotel.Prometheus.Labels.{is_empty}
use ohnotel.Prometheus.Labels.Repeats.{eq_text_iff, eq_text-false, eq_text_self}

pub record Resource (F : Type 0) : Type 0 where
  pub service_name : Option Text
  pub service_namespace : Option Text
  pub service_version : Option Text
  pub service_instance_id : Option Text
  pub telemetry_sdk_name : Option Text
  pub telemetry_sdk_language : Option Text
  pub telemetry_sdk_version : Option Text
  pub host_name : Option Text
  pub host_arch : Option Text
  pub os_type : Option Text
  pub process_executable_name : Option Text
  pub attributes : List (KeyValue F)

-- What `default` asks for: the variable OTEL_SERVICE_NAME, the package, the bytes that
-- `gethostname` leaves in its buffer as a text, the target, and the name of the executable.
pub record Environment : Type 0 where
  pub service_name : Option Text
  pub package_name : Text
  pub package_version : Text
  pub host_name : List ℕ
  pub arch : Text
  pub os : Text
  pub exe_name : Option Text

-- `env_var`: an empty variable is none.
abbrev pub env_var : Option Text → Option Text
env_var (some []) = none
env_var v = v

abbrev pub host_arch : Text → Text
host_arch arch =
    if eq_text arch (codes "x86_64")
    then codes "amd64"
    else if eq_text arch (codes "aarch64")
    then codes "arm64"
    else if eq_text arch (codes "x86")
    then codes "x86"
    else if eq_text arch (codes "arm")
    then codes "arm32"
    else if eq_text arch (codes "powerpc64")
    then codes "ppc64"
    else arch

abbrev pub os_type : Text → Text
os_type os = if eq_text os (codes "macos") || eq_text os (codes "ios") then codes "darwin" else os

-- The buffer up to its first zero, or all of it.
unfoldable pub until_zero : List ℕ → List ℕ
until_zero [] = []
until_zero (b ∷ bs) = let rest = until_zero bs in if b == 0 then [] else b ∷ rest

module _ {F : Type 0} where
  -- `Resource::default`
  unfoldable pub default : (List ℕ → Text) → Environment → Resource F
  unfolding until_zero
  default from_utf8_lossy env = record {
    service_name = env_var env.service_name;
    service_namespace = none;
    service_version = none;
    service_instance_id = none;
    telemetry_sdk_name = some env.package_name;
    telemetry_sdk_language = some (codes "rust");
    telemetry_sdk_version = some env.package_version;
    host_name = some (from_utf8_lossy (until_zero env.host_name));
    host_arch = some (host_arch env.arch);
    os_type = some (os_type env.os);
    process_executable_name = env.exe_name;
    attributes = [];
  }

  abbrev pub key_of : KeyValue F → Text
  key_of (KeyValue.new key value) = key
  key_of (KeyValue.no_val key) = key

  -- The assignment at the position of the key, or the push.
  unfoldable pub replace_or_push : KeyValue F → List (KeyValue F) → List (KeyValue F)
  replace_or_push kv [] = kv ∷ []
  replace_or_push kv (existing ∷ attrs) =
      let rest = replace_or_push kv attrs in
      if eq_text (key_of existing) (key_of kv) then kv ∷ attrs else existing ∷ rest

  unfoldable pub upsert_key_value : List (KeyValue F) → KeyValue F → List (KeyValue F)
  unfolding replace_or_push
  upsert_key_value attrs kv = if is_empty (key_of kv) then attrs else replace_or_push kv attrs

  unfoldable pub upsert_all : List (KeyValue F) → List (KeyValue F) → List (KeyValue F)
  unfolding upsert_key_value
  upsert_all attrs [] = attrs
  upsert_all attrs (kv ∷ kvs) = upsert_all (upsert_key_value attrs kv) kvs

  -- The attributes of the fields that are set.
  abbrev pub pushed : List (Text × Option Text) → List (KeyValue F)
  pushed [] = []
  pushed ((key, none) ∷ more) = pushed more
  pushed ((key, some value) ∷ more) = KeyValue.new key (Value.string value) ∷ pushed more

  -- The table of `push_attrs!`.
  abbrev pub fields : Resource F → List (Text × Option Text)
  fields r =
      (codes "service.name", r.service_name)
      ∷ (codes "service.namespace", r.service_namespace)
      ∷ (codes "service.version", r.service_version)
      ∷ (codes "service.instance.id", r.service_instance_id)
      ∷ (codes "telemetry.sdk.name", r.telemetry_sdk_name)
      ∷ (codes "telemetry.sdk.language", r.telemetry_sdk_language)
      ∷ (codes "telemetry.sdk.version", r.telemetry_sdk_version)
      ∷ (codes "host.name", r.host_name)
      ∷ (codes "host.arch", r.host_arch)
      ∷ (codes "os.type", r.os_type)
      ∷ (codes "process.executable.name", r.process_executable_name)
      ∷ []

  unfoldable pub into_attributes : Resource F → List (KeyValue F)
  unfolding upsert_all
  into_attributes r = upsert_all (upsert_all [] r.attributes) (pushed (fields r))
