-- ===== src/Api/Services.antt =====
-- Services as an owner lists them, their templates and template chains:
-- api/v1beta1/multiclusterservice_types.go, servicetemplate_types.go, templatechain_common.go.
use kcm.Prelude.{Bool, List, Option, String}

-- ServiceDependsOn
pub record ServiceDependsOn : Type 0 where
  pub name : String
  pub namespace : String

pub record ValuesFrom : Type 0 where
  pub kind : String
  pub name : String

-- *ServiceHelmOptions, serialised.
abbrev pub HelmOptions : Type 0
HelmOptions = Option String

pub record Service : Type 0 where
  pub helm_options : HelmOptions
  pub helm_action : String
  pub name : String
  pub namespace : String
  pub template : String
  pub template_chain : String
  pub version : String
  pub values : String
  pub values_from : List ValuesFrom
  pub depends_on : List ServiceDependsOn
  pub disable : Bool

pub record AvailableUpgrade : Type 0 where
  pub name : String
  pub version : String

pub record SupportedTemplate : Type 0 where
  pub name : String
  pub available_upgrades : List AvailableUpgrade

pub record TemplateChainSpec : Type 0 where
  pub supported_templates : List SupportedTemplate

-- A ServiceTemplateChain: its spec and its status.
pub record ServiceTemplateChain : Type 0 where
  pub spec : TemplateChainSpec
  pub validation_error : String
  pub valid : Bool

-- UpgradePath, without its deprecated list of strings.
pub record UpgradePath : Type 0 where
  pub versions : List AvailableUpgrade

pub record ServiceUpgradePaths : Type 0 where
  pub name : String
  pub namespace : String
  pub template : String
  pub available_upgrades : List UpgradePath

-- A ServiceTemplate: .spec.version, .spec.helm with its .chartSpec.version, and the status.
pub record HelmSpec : Type 0 where
  pub chart_spec : Option String

pub record ServiceTemplate : Type 0 where
  pub version : String
  pub helm : Option HelmSpec
  pub validation_error : String
  pub valid : Bool
