-- ===== src/Lib.antt =====
-- nextbos-ai: the agent service that answers business questions with checked SQL and charts.
--
-- The program is a LangGraph agent behind an HTTP API. A run of the graph takes the state through
-- nodes: the context is summarized, the intent is recognized and routed by fixed rules, the business
-- context is asked of Wren, a language model plans SQL, Wren checks the preferred candidate with a dry
-- plan, the checked SQL is executed, a chart is planned and built from the rows, and the model
-- answers. Clients of Wren, the model configuration and the stored conversations stand around it.
--
-- Files and the code that they model (paths from the repository's root):
--   Prelude, Value       texts, lists, exceptions as outcomes; Python values without a schema, with
--                        get, truth, `or`, isinstance tests and dictionary updates
--   Schemas              src/app/agent/schemas/*.py: the pydantic models, their validators
--                        (`validate_status_contract`), constructors (`new_…`) and `model_dump`
--                        (`dump_…`)
--   Agent.State          src/app/agent/state.py, options.py: the state and the updates of nodes
--   Agent.Nodes.*        src/app/agent/nodes/*.py: one module per node, with the node under its name and
--                        its helpers under theirs; prompts/renderer.py is in Agent.Nodes.Respond
--   Agent.Graph          src/app/agent/graph.py: `run_node` is add_node, `next_node` the edges, `invoke`
--                        a run
--   Agent.ModelRuntime   src/app/agent/model_runtime.py
--   Llm.*                src/app/llm/models.py, config_resolver.py, chat_models.py
--   Integrations.*       src/app/integrations/business/sql_executor.py and wren.py
--   Conversation.*       src/app/conversation/repository.py, context_loader.py, summary.py, and the
--                        conversation tables of src/app/persistence/postgres/models.py
--   Persistence          src/app/persistence/postgres/llm_model_repository.py and its tables
--   Services.*           src/app/services/agent_service.py: the events for the frontend (Contents,
--                        Steps, StreamEvents, ToolEvents, ChartEvents, StepEvents), and `chat` and
--                        `stream_chat` (AgentService)
--   Agent.Runtime        src/app/agent/runtime.py: how a run is prepared, `run_graph`, `stream_graph`
--   Agent.Studio         src/app/agent/studio_graph.py: the calls of `_ensure_schema`, interleaved
--   Api.*                src/app/api/errors.py, streaming.py, routes/chat.py, routes/conversations.py
--   Testing              concrete components and the theorems at concrete inputs
--
-- A node is a function from the state to an outcome: a list of updates, or the exception that leaves
-- it. `sql_execute` also gives the SQL that it hands to the execution client. The graph merges the
-- updates and follows an edge. The repository's write methods are functions on the tables, one
-- transaction each; the id and the time that they draw are arguments.
--
-- What is not part of the repository is a parameter: LangChain models and tools, LangMem, the reducer
-- of messages, the tools of Wren, `json.dumps`, the hash of a digest, the clock, the database's
-- ORDER BY. pydantic's `model_validate` is the record `Schema`: what it accepts meets the constraints of
-- the model, and the dump of a valid instance is read back.
--
-- Bounds: texts are strings of code points, integers start at 0, floats are in millionths. A run of
-- the graph has fuel for ten rounds; the edges have no cycle and the longest path has nine nodes.
-- The client of Wren is taken in the state in which it is called. A stream is a list of events with
-- the exception that may end it, and is read to its end; what a client leaves unread is not modelled.
--
-- A chat goes through all parts: the route makes a call of the service, the service stores the
-- question, the runtime prepares a run from the checkpoint or from the stored messages, the graph
-- runs, and the service stores the answer and a summary. `AgentService` takes the runs of the graph as
-- arguments, which Agent.Runtime provides.
--
-- Not modelled: a failing database, the routers and the start of the app, settings as they are read,
-- tracing and logging, the assembly of LangGraph Studio's graph, the registry of tools, placeholders
-- for skills and knowledge. Spans and log lines of the modelled code are left out.
pub mod Prelude
pub mod Value
pub mod Schemas
pub mod Llm
pub mod Integrations
pub mod Agent
pub mod Conversation
pub mod Persistence
pub mod Services
pub mod Api
pub mod Testing
