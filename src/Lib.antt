-- ===== src/Lib.antt =====
-- kcm deploys services to the clusters that it manages. An owner, a ClusterDeployment or a
-- MultiClusterService, lists the services it wants, which may depend on one another. The code
-- modelled here turns that list into a ServiceSet, the object that a provider such as Sveltos
-- carries out, and it does so again at each reconciliation:
--
--   admission refuses lists of services whose dependencies are absent or cyclic;
--   the versions of the services are read off their templates;
--   services whose dependencies have not been deployed yet are held back;
--   each other service gets a target, the next hop of its template chain where it has one;
--   the targets and the stored services that are held back make up the new ServiceSet, which is
--   created, updated, or left alone where nothing changes.
--
-- The files and the code:
--
--   Prelude: Boolean tests, lists, keys, Go's maps as lists of pairs, and integers.
--   Api: the types of api/v1beta1/multiclusterservice_types.go, serviceset_types.go,
--     servicetemplate_types.go and templatechain_common.go, and what is read through the client of
--     the API server, a record of functions.
--   Chain: template chains, api/v1beta1/templatechain_common.go (IsValid, findAllUpgradePaths,
--     UpgradePaths).
--   Graph: the search for cycles, dfs, hasCycle and hasCycleFrom of
--     internal/util/validation/services.go and multiclusterservice.go.
--   Validation: ValidateServiceDependencyOverall and its checks, and in Templates
--     ServicesHaveValidTemplates, internal/util/validation/services.go; in Owners
--     ValidateMCSDependencyOverall and ValidateMCSDelete,
--     internal/util/validation/multiclusterservice.go; in Policies ValidateRBACPolicy, rbacpolicy.go
--     beside them; in Clusters ClusterTemplateK8sCompatibility, cluster_template.go, and
--     ClusterDeployCredential and ClusterDeploymentDeletionAllowed, cd.go.
--   Services: internal/serviceset/util.go, with Keys (ServiceKey, AtDesiredVersion,
--     DeployedVersions, FullyDeployed), Versions (ResolveServiceVersions), Filter
--     (FilterServiceDependencies), Upgrades (ServicesUpgradePaths, nextUpgradeStep), Deploy
--     (ServicesToDeploy), Order (sortByDependency, BuildServicesList), Fetch (fetchServiceSet) and
--     Pipeline (ResolveServicesToApply, GetServiceSetWithOperation); Builder is
--     internal/serviceset/builder.go and Processor internal/serviceset/processor.go.
--   Access: the distribution of objects of the system namespace to other namespaces,
--     internal/util/accessmanagement/accessmanagement.go, with Resolve (ResolveRules,
--     TargetNamespaces, ResolveNames), Plan (PlanGroupKind) and Removal (ClusterTemplatesToRemove);
--     the rules and their Migration (MigrateAccessRules) are
--     api/v1beta1/accessmanagement_types.go.
--   Sveltos: the adapter of internal/controller/adapters/sveltos. State is state.go
--     (servicesStateFromSummary, featureHelm), which reads back what the provider did; Rules and
--     Tiers are the loading, the compilation and the cache of health rules of verify.go
--     (rulesFromConfigMap, rulesFromConfigMaps).
--   Telemetry: the buckets of internal/telemetry/collector/local_buckets.go.
--   Conditions: when an object is ready, internal/util/conditions/ready_condition.go
--     (UpdateReadyCondition).
--   Poller: the runner that polls, internal/util/poller/runner.go (NewRunner, Start, tick), as a
--     step relation of its goroutine, its reader and its context.
--   Components: the removal of components, internal/controller/components/cleanup.go (Cleanup).
--   Backup: scheduled backups, internal/controller/backup/schedule.go (handleScheduledBackup,
--     createAllScheduledBackups), with setError of reconcile.go.
--   Samples: the theorems at concrete services, rules, summaries, bounds, backups and runners.
--
-- How the code is modelled. A map is a list of pairs with one entry for each key, and a set is the
-- list of its members. Where Go goes through a map in an order that it leaves open, the order is an
-- argument, or the list's order where the result does not depend on it. An error is a value that
-- keeps the cause and not the message. What is changed in place is returned instead. Semantic
-- versions, hashes, JSON, YAML, CEL, regular expressions, label selectors and the comparison of two
-- specs are libraries': they are arguments, as are cron schedules and Velero. So are the answers of
-- the API server, the clock and the printer of numbers. The cache of health rules, a variable of
-- the process, is passed on from call to call. An integer of 64 bits is a number whose sums and
-- products are taken modulo 2 ^ 64.
--
-- Fuel. dfs, findPaths and place go deeper only by marking a node that was not marked, so their fuel
-- is one more than there are nodes; the loop of FilterServiceDependencies drops a service in each
-- round but the last, so its fuel is one more than there are deployed services. Where a search that
-- has no fuel left has an outcome of its own, the theorems exclude it; for findPaths the theorem
-- says that no route is missed. The loop of generateBounds at least doubles a bound that stays below
-- 2 ^ 64, so 65 rounds are enough, as its theorem says.
--
-- Not modelled: the controllers' loops, webhooks and the collection of telemetry, which read and
-- write the API server around this code; the rest of the Sveltos adapter, which evaluates the health
-- rules on listed objects and translates ServiceSets to Sveltos's own objects; the rest of the backups,
-- which follows Velero's objects; the contracts of providers, IPAM and the installation of components;
-- times other than a schedule's, events, metrics and logs.
pub mod Prelude
pub mod Api
pub mod Chain
pub mod Graph
pub mod Services
pub mod Validation
pub mod Access
pub mod Sveltos
pub mod Telemetry
pub mod Conditions
pub mod Poller
pub mod Components
pub mod Backup
pub mod Samples
