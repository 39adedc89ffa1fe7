-- ===== src/Otel/Sender.antt =====
-- The sender of src/otel/sender.rs, and `Scope` of src/otel/dto.rs. The call of the service over the
-- channel is an argument; what is logged is a result.
use ohnotel.Base.{
  ℕ, Text, Bool, false, List, [], ◌∷◌, Option, none, some, Result, ok, err, ◌>>=◌, if◌then◌else◌,
  not, ◌&&◌, ◌==◌, ◌≡◌, ◌↔◌, refl, ok-injective, ap, ◌∙◌, arith,
}
use ohnotel.Model.Value.{KeyValue}
use ohnotel.Otel.{AnyValue, map_attrs}
use ohnotel.Otel.Resource.{Environment}
use ohnotel.Otel.Resource as Process
use ohnotel.Prometheus.Labels.{is_empty}

pub record Scope (F : Type 0) : Type 0 where
  pub name : Text
  pub version : Text
  pub attributes : List (KeyValue F)

-- `pb::InstrumentationScope`
pub record InstrumentationScope (W : Type 0) : Type 0 where
  pub name : Text
  pub version : Text
  pub attributes : List (Text × Option W)

-- `res::Resource`, which holds attributes only.
abbrev pub ResourceMessage : Type 0 → Type 0
ResourceMessage W = List (Text × Option W)

pub record ScopeMetrics (W M : Type 0) : Type 0 where
  pub scope : Option (InstrumentationScope W)
  pub metrics : List M
  pub schema_url : Text

pub record ResourceMetrics (W M : Type 0) : Type 0 where
  pub resource : Option (ResourceMessage W)
  pub scope_metrics : List (ScopeMetrics W M)
  pub schema_url : Text

-- `ExportMetricsServiceRequest`
abbrev pub Request : Type 0 → Type 0 → Type 0
Request W M = List (ResourceMetrics W M)

-- `ExportMetricsPartialSuccess`; the count of an `i64` by its bits.
pub record PartialSuccess : Type 0 where
  pub rejected_data_points : ℕ
  pub error_message : Text

abbrev pub rejected : Option PartialSuccess → ℕ
rejected none = 0
rejected (some partial) = partial.rejected_data_points

-- The variants of `Error` that come of an export.
pub data ExportError (Status : Type 0) : Type 0 where
  otlp_transport : Status → ExportError Status
  otlp_partial_export : ℕ → Text → ExportError Status

pub record Tonic (W : Type 0) : Type 0 where
  pub resource : Option (ResourceMessage W)
  pub scope : Option (InstrumentationScope W)
  pub schema_url : Text
  pub silent : Bool

abbrev pub default_scope : {F : Type 0} → Environment → Scope F
default_scope env = record {
  name = env.package_name;
  version = env.package_version;
  attributes = [];
}

module _ {F W : Type 0} (pb : AnyValue F W) where
  abbrev pub resource_message : Process.Resource F → ResourceMessage W
  resource_message r = map_attrs pb (Process.into_attributes r)

  abbrev pub scope_message : Scope F → InstrumentationScope W
  scope_message scope = record {
    name = scope.name;
    version = scope.version;
    attributes = map_attrs pb scope.attributes;
  }

  unfoldable pub new : (List ℕ → Text) → Environment → Tonic W
  new from_utf8_lossy env = record {
    resource = some (resource_message (Process.default from_utf8_lossy env));
    scope = some (scope_message (default_scope env));
    schema_url = [];
    silent = false;
  }

  unfoldable pub with_resource : Process.Resource F → Tonic W → Tonic W
  with_resource r tonic = record tonic { resource = some (resource_message r) }

  unfoldable pub with_scope : Scope F → Tonic W → Tonic W
  with_scope scope tonic = record tonic { scope = some (scope_message scope) }

module _ {W : Type 0} where
  unfoldable pub with_schema_url : Text → Tonic W → Tonic W
  with_schema_url url tonic = record tonic { schema_url = url }

  unfoldable pub with_silent : Bool → Tonic W → Tonic W
  with_silent silent tonic = record tonic { silent = silent }

unfoldable pub build_request : {W M : Type 0} → Tonic W → List M → Request W M
build_request tonic metrics =
    record {
      resource = tonic.resource;
      scope_metrics =
          record { scope = tonic.scope; metrics = metrics; schema_url = tonic.schema_url } ∷ [];
      schema_url = tonic.schema_url;
    }
    ∷ []

module _ {Status : Type 0} where
  -- What the answer makes of an export: an error, or perhaps a warning that is logged.
  unfoldable pub judge : Bool → Option PartialSuccess → Result (Option Text) (ExportError Status)
  judge silent none = ok none
  judge silent (some partial) =
      if not (partial.rejected_data_points == 0)
      then err (otlp_partial_export partial.rejected_data_points partial.error_message)
      else ok (
          if not (is_empty partial.error_message) && not silent
          then some partial.error_message
          else none)

  abbrev pub transported :
      Result (Option PartialSuccess) Status → Result (Option PartialSuccess) (ExportError Status)
  transported (ok answer) = ok answer
  transported (err status) = err (otlp_transport status)

  -- What `send` logs of a failed export.
  abbrev pub logged : Result (Option Text) (ExportError Status) → Option (ExportError Status)
  logged (ok warning) = none
  logged (err e) = some e

  logged-judge :
      (silent : Bool) (answer : Option PartialSuccess)
      → (logged (judge silent answer) ≡ none) ↔ (rejected answer ≡ 0)
  unfolding judge
  logged-judge silent none = (λ h. refl, λ h. refl)
  logged-judge silent (some partial) = ground arith

  answered :
      (silent : Bool) (reply : Result (Option PartialSuccess) Status)
      → (logged (transported reply >>= judge silent) ≡ none)
        ↔ ((answer : Option PartialSuccess) × (reply ≡ ok answer) × (rejected answer ≡ 0))
  answered silent (ok answer) = (
    λ h. (answer, refl, (logged-judge silent answer).0 h),
    λ (a, same, zero). (logged-judge silent answer).1 (ap rejected (ok-injective same) ∙ zero),
  )
  answered silent (err status) = (λ h. ground arith, λ (a, same, zero). ground arith)

  module _ {W M : Type 0} (call : Request W M → Result (Option PartialSuccess) Status) where
    unfoldable pub export : Tonic W → List M → Result (Option Text) (ExportError Status)
    unfolding judge
    export tonic metrics = transported (call (build_request tonic metrics)) >>= judge tonic.silent

    unfoldable pub send : Tonic W → List M → Option (ExportError Status)
    unfolding export
    send tonic metrics = logged (export tonic metrics)

    -- `send` logs no error exactly if the call answers and the answer rejects no data point.
    pub send-eq-none_iff :
        (tonic : Tonic W) (metrics : List M)
        → (send tonic metrics ≡ none) ↔ (
            (answer : Option PartialSuccess) × (call (build_request tonic metrics) ≡ ok answer)
            × (rejected answer ≡ 0))
    unfolding send
    send-eq-none_iff tonic metrics = answered tonic.silent (call (build_request tonic metrics))
