-- ===== src/Lib.antt =====
-- A model of agy-identity-bridge, a plugin of CLIProxyAPI (CPA) that decides which requests go to
-- an agy2api provider, derives a stable client identity for them, signs it, and runs a mirrored
-- executor that forwards requests and their event streams.
--
-- Parts, in the order in which a request meets them:
--   Config, Config/Load, Config/Keys  src/config.go: settings, their normalisation, the two
--     configuration documents (normalizeSettings, settingsFromMap, loadPluginConfiguration)
--   Config/Glob, Config/Selectors  src/config.go: matchText and shouldInterceptCandidate
--   Config/Secret  src/config.go, src/providers.go: which secret signs
--   Candidate, Headers, Metadata, Intercept  src/providers.go, src/dispatch.go: reads of a
--     request, and the candidate that candidateFromPayload makes of them
--   Identity  src/identity.go, src/executor.go: deriveStablePrincipal, identitySignatureMessage,
--     identityFromExecutorRequest
--   Dispatch  src/dispatch.go: handleInterceptAfter, which injects and signs the identity, and
--     registrationCapabilities
--   Registry  src/providers.go: resolveRecordByModel and the ring of dashboard events
--   Discovery, Scan, Diagnostics  src/providers.go: the records of configuration and host
--     (discoverOpenAICompatibility, discoverRuntimeAuths, matchDiscoveredProvider), the loop of
--     scanProviderDiagnostics over them, its report, and publicProviderDiagnostics
--   Spec  src/providerspec.go: the mirrored provider (Spec/Compat, Spec/Extract:
--     extractProviderSpec) and its published models
--   Catalog, Models  src/modelcache.go, src/models.go: the saved list of models, and the models
--     that are registered with the host (resolveProviderSpec, currentModelResponse)
--   Auth, Upstream  src/executor.go: the auth record saved with the host (ensureAuthRecord), and
--     the signed request that is sent upstream (identityHeaders, buildUpstreamRequest)
--   Executor  src/executor.go: the request and the answers of the host, and handleExecutorExecute,
--     handleExecutorExecuteStream and handleExecutorCountTokens
--   Routes, Payload  src/executor.go: upstream routes, model names and the body that is sent
--   Sse, Stream  src/executor.go: the event parser, and the loops that read the upstream stream
--   Usage  src/usage.go: token totals and where they are found (Usage/Parser:
--     parseUsageObservation), the bounded list of observations, and the filter, summary
--     and groups of the usage page
--   Value, Unique, Int64, Text, Base  decoded values, lists without repeats, machine integers,
--     texts, and what every module shares
--   Examples  witnesses of the theorems
--
-- Conventions. A text is the list of its code points; lower case is that of ASCII, and lengths
-- count code points, which are the bytes of an ASCII text. A Go map is the list of its entries in
-- the order in which `range` visits them. A nil slice and an empty one are the same list. An
-- int64 is its bit pattern, and sums wrap around. Locked global variables are arguments and
-- results. The YAML and JSON codecs, SHA-256, base64, URL parsing, sorting, the clock, the
-- environment and the host bridge are parameters.
--
-- Fuel. `drain_loop` has the length of the pending text as fuel, and each round takes a blank
-- line off it; the searches of metadata and of usage have the depth of what they search. The
-- loops that read a stream run over the list of the answers of the host, and are `none` while an
-- answer is awaited.
--
-- Not modelled: the C ABI and host calls (src/main.go, src/hostcalls.go), configurePlugin,
-- handleMethod and the JSON envelopes (src/dispatch.go), the file of
-- observations and the HTML of the usage page (src/usage.go), and the management pages
-- (src/management.go). Where an operation calls resolveProviderSpec, what it gives is an argument
-- of the definition, except in Models.
pub mod Base
pub mod Text
pub mod Int64
pub mod Value
pub mod Unique
pub mod Candidate
pub mod Headers
pub mod Metadata
pub mod Config
pub mod Identity
pub mod Sse
pub mod Stream
pub mod Registry
pub mod Spec
pub mod Routes
pub mod Payload
pub mod Usage
pub mod Intercept
pub mod Discovery
pub mod Catalog
pub mod Auth
pub mod Models
pub mod Scan
pub mod Diagnostics
pub mod Upstream
pub mod Dispatch
pub mod Executor
pub mod Examples
