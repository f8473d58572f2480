-- ===== src/Lib.antt =====
-- AddonConfig: a Kubernetes controller (Go) that validates the values of an AddonConfig against
-- the schema of an AddonConfigDefinition, fills in its defaults, finds the target cluster and the
-- objects that the definition depends on, renders the definition's template with them, and stores
-- the result in an output resource. What it finds on the way it writes as conditions on the status
-- of the AddonConfig.
--
-- Parts and files
--
-- Common: shared names, tests on numbers and text, list functions, decimal digits, and Result for
-- a value or an error.
--
-- Api/Condition models api/v1alpha1/condition_types.go, Api/Config the objects of
-- addonconfig_types.go, addonconfigdefinition_types.go, common_types.go and fielderror_types.go.
-- Go maps are association lists, pointers that may be nil are Option. Statuses and severities are
-- data types, with one more constructor for a text that has no constant.
--
-- Conditions models util/conditions. Getter and Summary are getter.go, Setter is setter.go, Groups
-- and Merge are merge.go, Strategies is merge_strategies.go, Patch is patch.go. Get is get, Set is
-- set_condition, NewPatch is diff and new_patch, Patch.Apply is apply, whose loop is apply_all. An
-- object is represented by its list of conditions; Set, which also writes the transition time into
-- the condition that it is given, returns both. The time is an argument: an instant for one Set, a
-- function of the round for a loop of them. Sprintf is fmt.Sprintf as far as the code uses it. The
-- sorting of sort.Slice is an insertion sort. Theorems stand in Lookup, Order, Ordering,
-- Canonical, GroupTests, Priority, Outcomes, Ready, States, Marked, ThreeWay, Difference,
-- Distinctness, Conflicts and Ownership.
--
-- Conditions also holds the wrapper of unstructured.go (Unstructured) and the matchers of
-- matcher.go and matchers.go (Matcher), with instances in WrapperSamples. A patch that Apply has
-- written transition times into, and that is applied again, is the subject of Alike and Reapplied,
-- and Unopposed says what it shows of the changes of other clients where it succeeds.
--
-- Patching models util/patch. Platform is the record of what the package calls and does not
-- implement: the converter between objects and maps, merge patches, JSON, the API client,
-- wait.ExponentialBackoff and the error values. Its State is that of the API server and of all
-- that acts on it, so other clients may change the object between any two requests. Options is
-- options.go, Copies is utils.go; Retry is patchStatusConditions of patch.go with its retries, a
-- state passed from round to round that holds the server, the requests made so far and the
-- operations, into which Apply writes; Helper is the rest of patch.go. Laws states what is
-- documented of the retries, of the optimistic lock, of aggregates and of the observed generation.
-- Theorems stand in Rounds (one round), Merging (all rounds), Contention (how many rounds), Whole,
-- Issued and Landing (the three patches), Idle (an object that has not changed) and Entries and
-- Focus (the copies). Cluster is a server to run them on.
--
-- Util models util/util.go: Requeue the choice among results, Ordinal the ordinals, Infrastructure
-- the provider of a cluster, Owners the owner references, with their theorems in OwnerLaws,
-- Listing the AddonConfigs of a definition, Unmarshal the decoding of a field, Kube the controller
-- of an object, the scope of a kind and the sorting of versions, Locations base64, kubeconfigs and
-- URLs, Random the random texts, Nil the test for nil, with reflect as a parameter.
--
-- Controller models controllers/addonconfig_controller.go and addonconfig_controller_phases.go.
-- External is the record of what these files call and do not implement: the API client, JSON, the
-- schema packages, text/template, label selectors and the error values; Documented is what the
-- documentation of the error packages says of nil. Context is addonConfigContext, passed from
-- phase to phase in place of the pointer, together with the number of readings of the clock and
-- the objects given to CreateOrUpdate. Schema, Target, Templating, Dependencies and Output are the
-- phases, a function for each and one for each of its steps; Reconcile is the loop over them;
-- Request is the method Reconcile, which reads the AddonConfig, reconciles it and patches its
-- status through Patching; Watch is the request for a change of a definition. Theorems stand in
-- Steps, Keeps, Guarantees, Failures, Validation, Stuck, Constraints, Recorded and Limits.
-- Simulated is a cluster to run them on.
--
-- Controller/Settled compares two reconciliations, the second of what the first has left. Writes
-- splits what a reconciliation does from what it only writes (the conditions, the errors of the
-- fields, the observed schema, the output and the objects that it saves), and is a list of writes;
-- Uniform defines the functions that make the same writes and return the same whatever stands in
-- these fields, and composes them, Forms has the forms that they take; Schema, Defaults, Middle,
-- Selected, Fetching, Depending and Ending are about the phases, Run and Whole about the run,
-- Fields and the end of Writes about the same list of writes made twice; theorems on the whole
-- stand in Again and Fixed. Settling, in Defaults, is what is documented of stored and of
-- defaulted values.
--
-- Startup models main.go and SetupWithManager.
--
-- The Samples modules hold runs of the definitions, and instances of the theorems.
--
-- Bounds: all recursion is on lists, text or numbers, so no function needs fuel, but for the
-- decimal digits, which get one round more than the number, and the retries, whose five steps are
-- those of the source. Times are nanoseconds on the natural numbers. requeueAfter is never set
-- below 0 by the controller, and Ordinalize and RandomString are modelled on numbers that are not
-- negative.
--
-- Not modelled: generated code and the registration of the API group; in main.go the definition of
-- the flags by the library and the logger. toUnstructured is the converter of Platform, since the
-- copy that it makes first cannot be told from the object by value. A conversion back into an
-- object that fails is taken to leave the object as it was; an object that the source only hands
-- on after such an error is not read again. In fmt.Sprintf, `*`, argument indexes and the
-- complaint about arguments left over are left out. A time is its instant: its time zone, which
-- reflect.DeepEqual would compare, and the rounding to seconds when it is stored as JSON are left
-- out. Logging has no effect that the code reads.
--
-- The phases of a reconciliation read the API server as fixed; the AddonConfig itself, before and
-- after them, is read and patched on a server that changes.

pub mod Common
pub mod Api
pub mod Conditions
pub mod Patching
pub mod Util
pub mod Controller
pub mod Startup
