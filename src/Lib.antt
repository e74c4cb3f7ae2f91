-- ===== src/Lib.antt =====
-- The kernel runtime runs agents: a task's events go over a message broker to two workers, which
-- together form the agent loop. The brain asks a language model what to do next, and hands a batch
-- of tool calls to the tool worker; that one asks the governance engine for each call, runs what
-- may run, writes the answers to the conversation and wakes the brain again, until the model
-- answers with text, something fails, or the task's iterations are used up. Users reach it over the
-- routes of an API, which keep sessions and tasks in tables that all tenants share. The model is asked
-- through a circuit breaker, tenants are billed and limited, and every session has a directory of
-- its own.
--
-- Files:
-- - Base, Base/Lists, Base/Dict: numbers, lists and dictionaries, and their lemmas.
-- - Breaker: src/infrastructure/resilience/circuit_breaker.py. The breaker's attributes are a record,
--   each method is a function on it. Protect has the wrapper of calls, Registry the breakers by
--   name; Invariant, Opening and Recovery prove how it behaves over sequences of calls.
-- - RateLimit: src/infrastructure/resilience/rate_limiter.py, the limiter in memory.
-- - McpLimit: src/services/mcp/mcp_rate_limiter.py.
-- - McpProtocol: src/services/mcp/stdio_protocol.py, stdio_messages.py and stdio_writer.py. The cap of
--   50 lines is the source's own.
-- - Broker: src/infrastructure/queue/redis_streams_broker/local_broker.py. A round of a consumer's
--   loop is a step; the callback is a parameter that may itself publish.
-- - Paths: src/infrastructure/runtime/paths.py, over a file system that is a parameter.
-- - Values, Governance: src/services/governance/policy_engine.py. An exception is a verdict.
-- - Store: the rows of src/infrastructure/db/models and `persist_message` of
--   src/services/memory/context_builder.py. Billing: `check_quota` of
--   src/services/billing/usage_tracker.py.
-- - Agent: what the workers share: the database of the session, what is committed, and what was
--   published. Agent/ToolWorker: src/services/agent_loop/tool_worker.py. Agent/Brain, with Call and
--   Response: src/services/agent_loop/brain. The handlers are functions from the shared state to
--   the shared state; the model's answers and the tools' results are arguments.
-- - Context: src/services/memory/context. A session's recent messages and the windows of older ones;
--   Checkpoint is checkpoint.py, Persistence is persistence.py over the rows of Store; History and
--   Windows prove what becomes of the messages.
-- - Gvfs: src/infrastructure/storage/gvfs, the files of a session over a git repository. Files is
--   api/filesystem.py, Changes api/changes.py and the commit, State what is saved and restored, Mounts
--   core.py; Keyed, Reading and Switching prove what becomes of the files. How the operating system reads
--   a path below a directory and writes there is a parameter, and both may raise.
-- - McpServers: src/services/mcp/stdio_*.py and src/tools/stdio_adapter_registry.py. Lifecycle registers
--   and removes servers, Health watches and restarts them, Execution calls their tools; Registering and
--   Fresh say what a registration leaves, and Counting, Tenants and Restoring prove the properties.
-- - McpHub: src/services/mcp/mcp_hub.py, with Validation, Sanitize, Capabilities and Proxy for the files of
--   those names; Promises says what the hub promises, Index and Owners that it keeps it.
-- - Router: src/services/tool_execution, the way of a call and the locks of the servers; Exclusion is
--   about the locks.
-- - Auth: src/infrastructure/auth/jwt_auth.py; Tokens is about the life of a pair of tokens.
-- - LlmConfig: src/services/agent_loop/brain/config_loader.py; Fallback is about sessions without a
--   tenant's model.
-- - Security: src/infrastructure/security/path_validation.py and tenant_context.py.
-- - Audit: src/infrastructure/observability/audit.py; Streams is about what a tenant reads.
-- - Crypto: src/infrastructure/security/crypto.py, over Fernet.
-- - Api: src/api/rest. Api itself is the rows, the answers and dependencies.py; Workspaces, Sessions,
--   Bindings, Forks, Config, Tasks and Streams are the session_*.py, sessions.py, tasks.py and
--   task_stream.py of routers; Requests runs one request after another. Commuting, Copying and Handling
--   compare a request on the tables with the same one on its tenant's rows, Untouched and Isolation say
--   what it does to the rows of others, Interleaving draws the conclusion, and Lifecycle follows one
--   session. Accounts is auth.py, Folders is folders.py and folder_utils.py, Uploads is workspace.py.
--   What uuid4 and the clock give a request is an argument. A session holds the rows of its workspaces,
--   which the routes in Requests never change (an upload may change the path in a row, and is about no
--   row here); that the database refuses to bind one workspace to one session twice is left out.
-- - Files named Tests apply the theorems to concrete states.
--
-- Clocks are arguments in whole ticks. A method that holds a lock, or that never waits, is one
-- step. The only fuel is the number of rounds of a consumer in Broker, where the theorem on it says how
-- many are enough, and the cap in McpProtocol that the code has itself.
--
-- Not modelled: what the language model, the tools, Redis, the sandboxes, the MCP servers and the
-- database engine do; HTTP, WebSocket and command line, and the routers that are not named above;
-- traces and metrics; semantic memory, whose failures the workers swallow. The texts of log lines are left out, the texts of messages
-- are kept.
pub mod Audit
pub mod Crypto
pub mod Api
pub mod Base
pub mod Breaker
pub mod RateLimit
pub mod McpLimit
pub mod McpProtocol
pub mod Broker
pub mod Paths
pub mod Values
pub mod Governance
pub mod Store
pub mod Billing
pub mod Agent
pub mod Context
pub mod Gvfs
pub mod McpServers
pub mod McpHub
pub mod Router
pub mod Auth
pub mod LlmConfig
pub mod Security
