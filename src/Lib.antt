-- ===== src/Lib.antt =====
-- A verification library for the Dash0 operator: the certificates of its webhook server, the
-- validation of the kubectl commands that its agent0-connector executes, the guard of its
-- reconciliations, the instrumentation of workloads, and decisions by versions and memory limits.
--
-- WebhookCerts: internal/webhookcerts. Every replica of the operator runs passes of a manager. A
-- pass reads the secret with the certificates, restores or generates the material, maintains it,
-- writes it back, loads it into the store of the webhook server, injects the CA bundle into the
-- webhook configurations and CRDs, and completes a rotation of the CA when all of them carry it.
--   X509          what the code takes from crypto/x509, crypto/ecdsa, encoding/pem and time, as a
--                 record of operations; X509/Laws states what the code relies on
--   Certificates  certificates.go: generateCa, issueServingCert, createKeyPair, parseKeyPair,
--                 parseCertificates and the tests on certificates
--   Material      state.go: material, bundleCerts, generateMaterial, retainChartCas, maintain,
--                 ensureServingCert; Material/Switch has evaluateSwitch, switchToPendingCa
--   SecretData    state.go: toSecretData, materialFromSecretData, dataEqual
--   Api           the answers of the API server that a pass sees, and the state of a process
--   Ensure        manager.go: ensureMaterial, writeSecret, collectRetentionCandidates, the retries
--   Targets       manager.go: injectAll, inject, checkPersesCrdBundle, evaluateOutcomes
--   Manager       manager.go and store.go: runPass, completeRotationIfPossible, Store.load
--   Tests         a concrete X509 that has the laws, sample material and passes
--
-- A certificate is its DER encoding, a key its PKCS #8 encoding, and the fields of a certificate
-- are operations on it. Times count nanoseconds; encodings cut them to seconds. Randomness is drawn
-- by number: maintain draws twice, so ensure_material hands it the second number after its own.
-- What Certificate.Verify asks of a CA beyond its validity (basic constraints, key usage, extended key
-- usage, no other restrictions) is a condition of the law on chains. generateCa meets it by its
-- template; materialFromSecretData looks at IsCA alone, so it is part of the invariant of the material.
-- Go mutates the material in place and drops it on an error; here an error carries no material. The
-- pointer to a missing serving certificate is modelled as an error of its own. Texts of errors,
-- events and log lines are left out.
--
-- Kubectl: images/agent0-connector/src/kubectl. A request names arguments of kubectl. The connector
-- parses them with the command tree of kubectl, runs its checks in order, and executes the command
-- only if all of them pass.
--   Arguments     parser.go, parsed_arguments.go, normalizeOutputFormat of kubectl.go and
--                 responseHasToBeRedacted of redaction.go
--   Allowed       allowed_commands.go
--   SortBy        validation.go: parseSortByPath, isSortByPathBelow, sortByExpressionIsSafe
--   Validation    validation.go: the checks, and validateCommandAndParseArguments; Checks, Outputs
--                 and Order say what it means to pass one, Sound puts them together
--   Output        kubectl.go: cappedBuffer
--   Tests         a small command tree, and requests
--
-- The resolution of a command line (cobra, pflag, and the findCommand and newRequestFlagSet that
-- drive them), the log verbosity, the JSONPath parser and the lower case of a character are
-- operations of one record. Maps of Go that are only searched are lists.
--
-- ReconcileGuard: internal/util/reconcile_guard.go. A guard keeps the reconciliations of a component
-- from running at once and remembers a trigger that arrives meanwhile. Its critical sections are
-- functions; the goroutines in Run are a step relation over them, in any order.
--
-- Workloads: internal/workloads/workload_modifier.go and internal/util/labels.go. A webhook and the
-- controllers call a modifier on a workload. It checks whether the workload is eligible, adds the
-- volume, the init container, mounts and environment variables to its pods, and labels the workload;
-- it can also take all of that back.
--   Pod             the fields of a workload that the code reads or changes, and the configuration
--   Env             GetEnvVar, addOrReplaceEnvironmentVariable, removeEnvironmentVariable, and the
--                   tests on a variable; Env/Laws and Env/Outside have their lemmas
--   LdPreload       LD_PRELOAD, NODE_OPTIONS and the legacy variables
--   Exporter        OTEL_EXPORTER_OTLP_ENDPOINT and OTEL_EXPORTER_OTLP_PROTOCOL
--   Settings        the variables that follow the settings of a namespace, and pointers.go
--   Attributes      service and resource attributes from labels and annotations
--   Instrumentation instrumentContainer, addEnvironmentVariables, uninstrumentContainer
--   PodSpecs        modifyPodSpec, revertPodSpec and what they call; DeepEqual is reflect.DeepEqual
--   Eligibility     checkEligibleForModification, hasMatchingOwnerReference
--   Images, Labels  ImageRefToLabel and the rest of labels.go, over the maps in Maps
--   Modifier        modifyResource, ModifyPod, revertResource, InstrumentationIsUpToDate
--   UpToDate        the way of a setting through the stages of addEnvironmentVariables
--   Frames          which variables the steps of the instrumentation can change
--   Tests           a sample configuration, and workloads
--
-- Go changes a workload in place; here an operation returns it. A nil slice or map is an empty one. A
-- call of slices.Delete with a negative index panics: the operations that can do so return an option,
-- and none is the panic. ModifyPod hands the same metadata over twice, as the workload's and as the
-- pod's, so there the workload's is an option as well. The hash of an image and the label selectors of
-- Kubernetes are parameters. Base/Text has the functions of Go's strings package.
--
-- Cluster: internal/util/cluster. kubernetes_version.go parses versions and takes the minimum over the
-- nodes, instrumentation_delivery.go and service_traffic_distribution.go decide by it. Workloads takes
-- the resolved delivery as a field of its modifier. Zones is the reporter of zone_coverage.go, over a
-- sequence of its calls; Zones/Alert has the alert that it is compared with. A number of more than 63 bits is an error, as in
-- strconv.Atoi.
--
-- Memory: internal/util/memory_derivation.go, the thresholds that are derived from a memory limit.
--
-- Loops are structural recursion, but for two: the loop over PEM blocks runs on fuel, one more than
-- the length of the data, and every block shortens the data; the retries after a conflict count
-- down from three, as in the source.
--
-- Not modelled: the Kubernetes client, the controllers, the subprocess, metrics, the redaction of
-- responses, the texts of messages, and the operator's other components.
pub mod Base
pub mod WebhookCerts
pub mod Kubectl
pub mod ReconcileGuard
pub mod Workloads
pub mod Cluster
pub mod Memory
