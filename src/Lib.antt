-- ===== src/Lib.antt =====
-- The gateway of Agent Features (gateway/): a catalogue of features with manifests, a ranking of the
-- providers of a capability by trust and by observed outcomes, the invocation of features in process
-- or over gRPC, composites that run capabilities as a pipeline, and the routes over all of these.
--
-- How the parts interact: a route of gateway/main.py looks up a feature in the catalogue, or ranks the
-- providers of a capability by the policy and the metrics and takes the head; it checks the input
-- against the manifest's schema, calls the invoker, records the outcome in the metrics and responds.
-- A step of a composite and a command of the chat console do the same. The gateway's state is the
-- metrics, the registry of composites, and the world behind the invoker.
--
-- Files, with the code that they model:
-- - Common and its children: Python's texts, integers, dictionaries and JSON values, its order of tuples,
--   its stable sort, and an interface of floats.
-- - Models: the records and enums of gateway/models.py.
-- - Catalog: gateway/catalog.py. Version is match_version (_semver_key is semver_key, _triple is
--   triple); Rank is feature_id, rank_features and resolve_feature; Summary is summarize_capabilities;
--   Browse is the filter and sort of InMemoryCatalog.list; Memory is InMemoryCatalog, its __init__ as
--   init. The record Catalog is the protocol of this name. Custom is feature_from_cr, and Cluster is
--   KubernetesCatalog.
-- - Ranking: gateway/ranking.py. Metrics is FeatureMetrics and MetricsStore, record as record_outcome;
--   Policy is BaselinePolicy and MetricsPolicy, the methods of which are score and rank.
-- - Validation: gateway/validation.py.
-- - Composer: gateway/composer.py, _resolve_ref as resolve_ref. The loop over the steps is run_steps.
-- - Invoker: gateway/invoker.py. Local is LocalInvoker and Grpc is GrpcInvoker; a raised exception is
--   a constructor of Invocation.
-- - Gateway: gateway/main.py. create_app's variables are the records App and State, _providers is
--   providers. Features has the routes of features and capabilities (_invoke is invoke), Compose those
--   of composites (_run_capability is run_capability), Chat the console (_chat is chat, and chat_stream
--   is in Chat/Stream), Compile the route compile_agent, Provenance the route feature_signature, and
--   Agents the route mcp_endpoint. Serve runs requests one after another, and Wiring is create_app,
--   with gateway/composites.py.
--   Waits has the awaits and yields at which a request can wait (a Task), Concurrent cuts the handlers
--   there (begin, proceed and resume take a request from one wait to the next), and Concurrent/Steps
--   lets the requests take turns.
-- - AgentDsl: gateway/agentdsl.py. The parent is parse, whose variables are the record Draft; Patterns
--   has its regular expressions; Codegen is codegen, with the templates and the names that are put in.
--   Printed is a printer of the language's statements with their meaning, which the code does not have.
-- - Signing: gateway/signing.py. The libraries that it calls are a Tools.
-- - Samples: gateway/samples.py. TextStats and Calculator are two handlers, and the parent has the
--   others, the manifests and build_dev_catalog_and_invoker.
-- - Mcp: gateway/mcp.py, _call as call and _tool as tool. The arguments of handle are an Adapter.
-- - Tests: the theorems at concrete inputs, and runs.
-- - Examples: AgentClient is examples/agent_client.py, whose printed lines are a list, and Echo is the
--   service of examples/features/echo/server.py.
-- - Scripts: scripts/export_manifests.py.
-- Files called Laws, and those named for what they prove, hold proofs and the predicates that they are
-- about, no code.
--
-- Parameters: the JSON Schema validator (iter_errors), json.loads, json.dumps, the text of a JSON value
-- (format), the clock and time zones, feature handlers, gRPC channels and calls, protobuf's Struct, the
-- Kubernetes client, HTTP, hashing, files and processes, Python's parser and arithmetic, and the invoker
-- of a composer are arguments. Where a theorem relies on json.loads or json.dumps it says so: json.loads
-- reads back what json.dumps writes, and refuses the empty text, and json.dumps writes one line. Floats
-- are the interface Common.Floats, of which only this is used: `<` is a weak order, as it is without
-- NaN, and negation turns it round.
--
-- Bounds: the classes of characters are those of ASCII, so a digit beyond it is none here. A version
-- part is a number of any length; Python refuses to read more than 4300 digits. All recursion is
-- structural but for `show`, the decimal digits of a number: its fuel is the number plus one, and each
-- digit divides the number by ten, so the fuel outlasts the digits.
--
-- Overlapping requests: an answer of the invoker is a turn of its request, any world may be behind it,
-- and other things, such as a call through the MCP adapter, may change the world at any time. A route
-- that has no await is one turn, also where FastAPI runs it in a thread.
--
-- Not modelled: a gateway whose catalogue raises an exception in list or get, as that of the cluster
-- does when the Kubernetes API fails; for a request with several lookups, such as a composite, this can
-- come after earlier steps have had their effects. Cluster itself has these exceptions, and so has the
-- resolver of endpoints in Wiring. Also left out are the routes that answer with constants, and the
-- start of the echo's gRPC server. The Go operator, the web page and the deployment files are not part
-- of this development.
pub mod Common
pub mod Models
pub mod Catalog
pub mod Ranking
pub mod Validation
pub mod Composer
pub mod Invoker
pub mod Gateway
pub mod Mcp
pub mod Signing
pub mod Samples
pub mod AgentDsl
pub mod Examples
pub mod Scripts
pub mod Tests
