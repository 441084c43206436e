-- ===== src/Lib.antt =====
-- The admission webhooks of managed-cluster-validating-webhooks, in Go: a server to which the
-- Kubernetes API server sends requests, and which lets them through, refuses them or patches them.
--
-- The program has four parts. The webhooks (pkg/webhooks) each decide on the requests of some
-- resources, and register themselves in a table by name (pkg/webhooks/register.go, add_*.go). The
-- dispatcher (pkg/dispatcher/dispatcher.go) turns the table into a map by URI and hands every HTTP
-- request to the webhook of its path, after pkg/webhooks/utils/utils.go has parsed it. The build
-- (build/resources.go) turns the table into webhook configurations, which pkg/syncset groups by
-- their label selector. pkg/config holds the list of privileged namespaces.
--
-- Files:
--   Base and its children: texts, lists, maps of strings, and lemmas on them.
--   Regex: the regular expressions of package regexp that occur, as trees, with a search (`match`).
--     Regex/Semantics says what matching is, Regex/Decides that the search finds it, Regex/Shapes
--     what the shapes of expression that occur match. A star takes rounds only while the text gets
--     shorter, so the length of the text is fuel enough for it.
--   Admission: requests, responses, and the decoder of objects, which is a parameter.
--   Webhook: the interface of pkg/webhooks/register.go as a record.
--   Utils, Utils/Matching: pkg/webhooks/utils/utils.go, but for the parser of HTTP requests.
--   Config, Config/Namespaces: pkg/config/config.go and pkg/config/namespaces.go. Config/Generate: the
--     loop of pkg/config/generate/namespaces.go.
--   Webhooks: a module for each webhook, named after its directory. `authorized` is the method
--     Authorized, `validate` the method Validate, `render_...` the decoding of the object, and `hook`
--     the whole webhook; a call that can panic returns an Outcome.
--   Registry, Registry/Keys, Registry/Table: the table, as an association list, and its 25 entries.
--   Server/Request, Server/Dispatcher: ParseHTTPRequest, NewDispatcher, HandleRequest, SendResponse.
--   Server/Main: the loop of cmd/main.go that registers the handlers, with net/http's panic on a
--     pattern that is empty or has a handler.
--   Build, Build/Selection: the loop of the SelectorSyncSet template in build/resources.go.
--     Build/Order: the sorting of the names before it. Build/Package: the loop of the package.
--     Build/Manifests, Build/Workloads: the other manifests. Build/Template:
--     the SelectorSyncSets, from the first Add to the rendering.
--   SyncSet, SyncSet/Grouping: pkg/syncset/syncsetbylabelselector.go, and SyncSet/Encode its
--     encodings that mend a field of the JSON text. SyncSet/Equality: reflect.DeepEqual on selectors.
--   Samples: runs on concrete requests.
--
-- A text is a list of code points. The uint64 of the clusterlogging webhook keeps its wrap-around.
-- Parameters are what is not in the repository: the decoders of Kubernetes objects, url.Parse, the
-- deserializer of AdmissionReviews, reflect.DeepEqual, json.Marshal (as the tree of its text), and
-- what podimagespec reads of the cluster. The captures of its regular expression are found by
-- structural recursion on the text, the longest first. The order in which Go walks a map is the order
-- of an association list, or a list of the names. A response records which constructor of
-- controller-runtime built it.
--
-- Not modelled: the writing of files in build/resources.go; the rest of
-- cmd/main.go; the mutex of the dispatcher, which lets in one request at a time, each of which leaves
-- the dispatcher as it was; the scheme registration in NewWebhook; pkg/k8sutil, which reads the environment,
-- files and the cluster; and logging, metrics and the documentation texts, which decide nothing.
pub mod Admission
pub mod Base
pub mod Build
pub mod Config
pub mod Regex
pub mod Registry
pub mod Samples
pub mod Server
pub mod SyncSet
pub mod Utils
pub mod Webhook
pub mod Webhooks
