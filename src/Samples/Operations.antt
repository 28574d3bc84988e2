-- ===== src/Samples/Operations.antt =====
-- Scheduled backups, Ready conditions, and the admission of policies and clusters, at concrete
-- objects.
use kcm.Prelude.{
  ℕ, ◌+◌, ◌≡◌, ◌↔◌, ◌⊎◌, refl, true, false, List, [], ◌∷◌, Memᴰ, map, Option, none, some, String,
  if◌then◌else◌, ◌==◌, string_eq, beq_refl, All, IsNodup, any, contains, ObjectKey, Resolved, ok,
  error, append_str,
}
use kcm.Api.{Service, Fetched, found, not_found, Listed, items}
use kcm.Validation.Policies.{RbacPolicyBinding, subject_eq, validate_rbac_policy}
use kcm.Validation.Policies.Unique.{with_rules, IsSound, validate_rbac_policy_iff}
use kcm.Validation.Clusters.{
  Semver, violated, cluster_template_k8s_compatibility, Credential, ProviderInterface,
  is_infrastructure, cluster_deploy_credential,
}
use kcm.Validation.Clusters.Compatible.{
  AllAccept, IsViolator, cluster_template_k8s_compatibility_iff,
}
use kcm.Validation.Clusters.Credentials.{IsUsable, cluster_deploy_credential_iff}
use kcm.Conditions.{Condition, condition_true, condition_false, update_ready_condition}
use kcm.Conditions.Ready.{find_condition, IsReady, update_ready_condition-IsReady}
use kcm.Backup.{
  RegionStatus, ManagementBackup, BackupPhase, phase_other, Creation, created, create_error,
  RegionClient, is_used, Created, create_regional, handle_scheduled_backup,
}
use kcm.Backup.Requests.{MayCreate, requests_by, handle_scheduled_backup-requests}
use kcm.Backup.Statuses.{entry_of, Tells, create_regional-Tells}
use kcm.Poller.{PollerOption, with_buffer_size, with_name, Runner, new_runner, Reached}
use kcm.Poller.Delivery.{IsOrderly, new_runner-IsOrderly}
use kcm.Prelude.{◌≤◌, pos}
use kcm.Components.{HelmRelease, Cluster, cleanup}
use kcm.Components.Removal.{Requests, cleanup-Requests}
use kcm.Samples.{both}

-- Two bindings, of which only the first has rules.
abbrev bindings : List RbacPolicyBinding
bindings =
    (record {
      name = "admin";
      cluster_role = "admins";
      rules = "pods" ∷ [];
      subjects =
          (record { kind = "Group"; name = "ops" }) ∷ (record { kind = "User"; name = "ops" }) ∷ [];
    })
    ∷ (record {
      name = "view";
      cluster_role = "admins";
      rules = [];
      subjects = (record { kind = "Group"; name = "dev" }) ∷ [];
    })
    ∷ []

-- Complains about one name.
abbrev is_subdomain : String → List String
is_subdomain name = if name == "Admins" then "upper case" ∷ [] else []

validate_rbac_policy_iff_example : (validate_rbac_policy is_subdomain bindings ≡ none) ↔ (
    IsNodup (map (λ (b : RbacPolicyBinding). b.name) bindings)
    × IsNodup (map (λ (b : RbacPolicyBinding). b.cluster_role) (with_rules bindings))
    × All (IsSound is_subdomain) bindings)
validate_rbac_policy_iff_example = validate_rbac_policy_iff is_subdomain bindings

-- Versions are their texts, and a constraint is the one version that satisfies it.
abbrev exact : Semver String String
exact = record { new_version = λ v. ok v; new_constraint = λ c. ok c; check = λ c v. c == v }

-- One template states a constraint.
abbrev get_constraint : ObjectKey → Fetched String
get_constraint key = if key.name == "t-1" then found "1.30" else found ""

abbrev kubernetes : String
kubernetes = "1.31"

cluster_template_k8s_compatibility_iff_example :
    ((cluster_template_k8s_compatibility exact get_constraint "apps" kubernetes both ≡ none) ↔ (
      (kubernetes ≡ "")
      ⊎ (((s : Service) → Memᴰ s both → s.disable ≡ true)
          ⊎ AllAccept exact get_constraint "apps" kubernetes both)))
    × ((t : String)
        → cluster_template_k8s_compatibility exact get_constraint "apps" kubernetes both
          ≡ some (violated t)
        → IsViolator exact get_constraint "apps" kubernetes both t)
cluster_template_k8s_compatibility_iff_example =
    cluster_template_k8s_compatibility_iff exact get_constraint "apps" kubernetes both

abbrev get_credential : Fetched Credential
get_credential = found (record { ready = true; identity_kind = some "AWSIdentity"; region = "eu" })

abbrev find : String → Option ProviderInterface
find provider =
    if provider == "infrastructure-aws"
    then some (record { cluster_identities = []; cluster_identity_kinds = "AWSIdentity" ∷ [] })
    else none

abbrev scope_of : Credential → Resolved (String → Option ProviderInterface)
scope_of cred = if cred.region == "eu" then ok find else error "no region"

abbrev providers : List String
providers = "bootstrap-k0s" ∷ "infrastructure-aws" ∷ []

cluster_deploy_credential_iff_example :
    (cluster_deploy_credential get_credential scope_of providers ≡ none)
    ↔ ((any is_infrastructure providers ≡ true) × IsUsable get_credential scope_of providers)
cluster_deploy_credential_iff_example =
    cluster_deploy_credential_iff get_credential scope_of providers

-- Sets a condition in front.
abbrev set_in_front : List Condition → Condition → List Condition
set_in_front conditions c = c ∷ conditions

in_front-sets :
    (conditions : List Condition) (c : Condition)
    → find_condition c.type (set_in_front conditions c) ≡ some c
in_front-sets conditions c = rw (beq_refl c.type) refl

-- Any false condition is an error.
abbrev handle : Condition → String × String
handle c = (c.message, "")

abbrev conditions : List Condition
conditions =
    (record {
      type = "TemplateReady";
      status = condition_true;
      reason = "Succeeded";
      message = "";
      observed_generation = 1;
    })
    ∷ (record {
      type = "CredentialReady";
      status = condition_false;
      reason = "Failed";
      message = "no identity";
      observed_generation = 1;
    })
    ∷ []

update_ready_condition-IsReady_example :
    (c : Condition) × (find_condition "Ready"
        (update_ready_condition handle set_in_front conditions 2)
      ≡ some c)
    × ((c.status ≡ condition_true) ↔ IsReady set_in_front handle in_front-sets conditions)
update_ready_condition-IsReady_example =
    update_ready_condition-IsReady set_in_front handle in_front-sets conditions 2

-- The creation fails in one region.
abbrev create : String → String → Creation
create region name = if region == "us" then create_error "timeout" else created

abbrev name_for : String → String
name_for region = append_str "daily-" region

abbrev update : ManagementBackup → Option String
update b = none

abbrev clients : List RegionClient
clients =
    (record { region = "us"; loaded = true })
    ∷ (record { region = "eu"; loaded = true })
    ∷ (record { region = "ap"; loaded = false })
    ∷ []

abbrev daily : ManagementBackup
daily = record {
  creation_time = 0;
  last_backup_name = "";
  last_backup_time = none;
  next_attempt = none;
  error_text = "";
  regions_last_backups = [];
}

-- The next time in steps of 24.
abbrev schedule : ℕ → ℕ
schedule t = t + 24

abbrev list_backups : String → Listed BackupPhase
list_backups region = items (phase_other ∷ [])

handle_scheduled_backup-requests_example :
    (MayCreate create name_for update 31 schedule 30 list_backups clients daily
      → (handle_scheduled_backup create name_for update 31
          (ok schedule)
          30
          list_backups
          clients
          daily).requests
        ≡ requests_by create name_for update 31 (create "" (name_for "")) clients)
    × (¬ MayCreate create name_for update 31 schedule 30 list_backups clients daily
        → (handle_scheduled_backup create name_for update 31
            (ok schedule)
            30
            list_backups
            clients
            daily).requests
          ≡ [])
handle_scheduled_backup-requests_example =
    handle_scheduled_backup-requests create name_for update 31 schedule 30 list_backups clients
      daily

abbrev before : Created
before = record { requests = []; backup = daily }

create_regional-Tells_example :
    ((c : RegionClient)
      → Memᴰ c clients
      → is_used c ≡ true
      → (s : RegionStatus) × (entry_of c.region
            (create_regional create name_for update 31 30 clients
              before).backup.regions_last_backups
          ≡ some s)
        × Tells create name_for update 31 c.region (create c.region (name_for c.region)) s)
    × ((other : String)
        → contains (map (λ (c : RegionClient). c.region) clients) other ≡ false
        → entry_of other
            (create_regional create name_for update 31 30 clients
              before).backup.regions_last_backups
          ≡ entry_of other before.backup.regions_last_backups)
create_regional-Tells_example =
    create_regional-Tells create name_for update 31 30 clients before (refl, (refl, (refl, tt)))

-- A runner of numbers with one option that counts and one that does not.
abbrev options : List PollerOption
options = with_buffer_size (pos 2) ∷ with_name "" ∷ []

new_runner-IsOrderly_example :
    (first : Runner ℕ) × (new_runner true options ≡ some first)
    × (1 ≤ first.capacity)
    × ((r : Runner ℕ) → Reached first r → IsOrderly r)
new_runner-IsOrderly_example = new_runner-IsOrderly options

-- A provider, a component that is not wanted, and one that has an owner.
abbrev installed : List HelmRelease
installed =
    (record { name = "kcm-aws"; is_owned = false })
    ∷ (record { name = "kcm-gcp"; is_owned = false })
    ∷ (record { name = "web"; is_owned = true })
    ∷ []

abbrev management : Cluster
management = record { prefix = "kcm"; kcm_chart_name = "kcm"; providers = "aws" ∷ [] }

abbrev deletes : String → Option String
deletes name = none

abbrev managed_secret : String → Fetched String
managed_secret name = if name == "kcm-gcp-variables" then found "true" else not_found

cleanup-Requests_example :
    Requests deletes deletes managed_secret management ("kcm-1-0" ∷ []) installed (
      cleanup deletes deletes managed_secret management none
        (items installed)
        (items ("kcm-1-0" ∷ [])))
cleanup-Requests_example =
    cleanup-Requests deletes deletes managed_secret management ("kcm-1-0" ∷ []) installed
