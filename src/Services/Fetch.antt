-- ===== src/Services/Fetch.antt =====
-- The ServiceSet of a ClusterDeployment and a MultiClusterService: `fetchServiceSet`, and the keys
-- and references of `ObjectKey` and `ClusterReference`, internal/serviceset/util.go. The hash in a
-- ServiceSet's name is the library's SHA-256, printed: a parameter.
use kcm.Prelude.{
  Bool, false, not, ◌&&◌, List, [], ◌∷◌, Option, none, some, String, if◌then◌else◌, filter_by, ◌==◌,
  string_eq, ObjectKey, append_str, Resolved, ok, error,
}
use kcm.Api.{ServiceSet, ClusterDeployment, MultiClusterService, Client, items, list_failed}

-- corev1.ObjectReference
pub record ObjectReference : Type 0 where
  pub kind : String
  pub name : String
  pub namespace : String
  pub api_version : String

unfoldable pub self_management_cluster_reference : (sveltos_version : String) → ObjectReference
self_management_cluster_reference sveltos_version = record {
  kind = "SveltosCluster";
  name = "mgmt";
  namespace = "mgmt";
  api_version = sveltos_version;
}

unfoldable pub cluster_reference : (sveltos_version : String) → Option ServiceSet → ObjectReference
unfolding self_management_cluster_reference
cluster_reference sveltos_version none = record {
  kind = "";
  name = "";
  namespace = "";
  api_version = "";
}
cluster_reference sveltos_version (some set) =
    if set.spec.cluster == "" then self_management_cluster_reference sveltos_version else record {
      kind = "ClusterDeployment";
      name = set.spec.cluster;
      namespace = set.namespace;
      api_version = "k0rdent.mirantis.com/v1beta1";
    }

-- `hash` prints the first four bytes of the hash of a name.
unfoldable pub object_key :
    (hash : String → String) → String → Option ClusterDeployment → MultiClusterService → ObjectKey
object_key hash system_namespace none mcs = record {
  namespace = system_namespace;
  name = append_str "management-" (hash mcs.name);
}
object_key hash system_namespace (some cd) mcs = record {
  namespace = cd.namespace;
  name = append_str cd.name (append_str "-" (hash mcs.name));
}

abbrev pub empty_service_set : ServiceSet
empty_service_set = record {
  name = "";
  namespace = "";
  labels = [];
  owner_references = [];
  spec = record {
    cluster = "";
    multi_cluster_service = "";
    provider = record { config = none; name = ""; self_management = false };
    services = [];
  };
  status = record { services = []; deployed = false };
}

abbrev mcs_name : Option MultiClusterService → String
mcs_name none = ""
mcs_name (some mcs) = mcs.name

abbrev cd_name : Option ClusterDeployment → String
cd_name none = ""
cd_name (some cd) = cd.name

abbrev list_namespace : String → Option ClusterDeployment → String
list_namespace system_namespace none = system_namespace
list_namespace system_namespace (some cd) = cd.namespace

-- A field selector on a name that is set.
abbrev selector : String → Option String
selector name = if name == "" then none else some name

-- The ServiceSets that the loop keeps: the cases 2 and 3 of its comment drop the others.
abbrev pub is_wanted : (cd mcs : String) → ServiceSet → Bool
is_wanted cd mcs set =
    not (not (cd == "") && mcs == "" && not (set.spec.multi_cluster_service == ""))
    && not (cd == "" && not (mcs == "") && not (set.spec.cluster == ""))

-- At most one is expected, and none is an empty one.
abbrev single : List ServiceSet → Resolved ServiceSet
single [] = ok empty_service_set
single (set ∷ []) = ok set
single (set ∷ other ∷ sets) = error "expected 1 ServiceSet"

unfoldable pub fetch_service_set :
    Client → String → Option MultiClusterService → Option ClusterDeployment → Resolved ServiceSet
fetch_service_set c system_namespace mcs cd =
    elim (c.list_service_sets (list_namespace system_namespace cd) (selector (cd_name cd))
      (selector (mcs_name mcs))) [
        | list_failed e ↦ error e
        | items sets ↦ single (filter_by (is_wanted (cd_name cd) (mcs_name mcs)) sets)
      ]
