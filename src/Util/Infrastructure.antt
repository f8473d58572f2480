-- ===== src/Util/Infrastructure.antt =====
-- util/util.go and types/template/v1alpha1: which infrastructure provider a cluster has.
use addonconfig.Common.{String, Bool, ◌&&◌, ◌==◌, if◌then◌else◌}

-- schema.GroupKind
pub record GroupKind : Type 0 where
  pub group : String
  pub kind : String

abbrev pub group_kind_eq : GroupKind → GroupKind → Bool
group_kind_eq a b = a.group == b.group && a.kind == b.kind

abbrev pub infrastructure_ref_vsphere : GroupKind
infrastructure_ref_vsphere = record {
  group = "infrastructure.cluster.x-k8s.io";
  kind = "VSphereCluster";
}

abbrev pub infrastructure_ref_supervisor : GroupKind
infrastructure_ref_supervisor = record {
  group = "vmware.infrastructure.cluster.x-k8s.io";
  kind = "VSphereCluster";
}

abbrev pub infrastructure_ref_aws : GroupKind
infrastructure_ref_aws = record { group = "infrastructure.cluster.x-k8s.io"; kind = "AWSCluster" }

abbrev pub infrastructure_ref_azure : GroupKind
infrastructure_ref_azure = record {
  group = "infrastructure.cluster.x-k8s.io";
  kind = "AzureCluster";
}

abbrev pub infrastructure_ref_docker : GroupKind
infrastructure_ref_docker = record {
  group = "infrastructure.cluster.x-k8s.io";
  kind = "DockerCluster";
}

abbrev pub infrastructure_ref_oci : GroupKind
infrastructure_ref_oci = record { group = "infrastructure.cluster.x-k8s.io"; kind = "OCICluster" }

abbrev pub infrastructure_provider_vsphere : String
infrastructure_provider_vsphere = "vsphere"

abbrev pub infrastructure_provider_supervisor : String
infrastructure_provider_supervisor = "vsphere"

abbrev pub infrastructure_provider_aws : String
infrastructure_provider_aws = "aws"

abbrev pub infrastructure_provider_azure : String
infrastructure_provider_azure = "azure"

abbrev pub infrastructure_provider_docker : String
infrastructure_provider_docker = "docker"

abbrev pub infrastructure_provider_oci : String
infrastructure_provider_oci = "oci"

abbrev pub infrastructure_provider_unknown : String
infrastructure_provider_unknown = "unknown"

-- `group_kind_of` is `FromAPIVersionAndKind` of apimachinery with `GroupKind` of what it returns.
unfoldable pub get_infrastructure_provider :
    (String → String → GroupKind) → String → String → String
get_infrastructure_provider group_kind_of api_version kind =
    let gk = group_kind_of api_version kind in
    if group_kind_eq gk infrastructure_ref_vsphere
    then infrastructure_provider_vsphere
    else if group_kind_eq gk infrastructure_ref_supervisor
    then infrastructure_provider_supervisor
    else if group_kind_eq gk infrastructure_ref_aws
    then infrastructure_provider_aws
    else if group_kind_eq gk infrastructure_ref_azure
    then infrastructure_provider_azure
    else if group_kind_eq gk infrastructure_ref_docker
    then infrastructure_provider_docker
    else if group_kind_eq gk infrastructure_ref_oci
    then infrastructure_provider_oci
    else infrastructure_provider_unknown
