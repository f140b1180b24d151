-- ===== src/Lib.antt =====
-- luicode, the gateway that serves coding agents from many model providers: a model of its
-- conversation scheduler, of its admission of provider requests, of the streams that answer them, and
-- of the state of a coding session. Paths are from the repository's root, below `src/luicode`.
--
-- The parts, the files that model them, and how they interact:
--
-- - `Base`: shared tests, lists, Python's `dict` as an association list in the order of insertion, and
--   `Outcome`, the result of code that can raise.
-- - `Trees`: `messaging/trees`, one conversation of a chat. `Trees.Queue` is `MessageNodeQueue`
--   (queue.py), `Trees.Node` is `MessageNode` (node.py), `Trees.Graph` is `MessageTreeGraph` (graph.py),
--   `Trees.Transitions` holds the results (transitions.py), and `Trees.Runtime` with its children is
--   `MessageTree` (runtime.py), which owns a graph and a queue and has one active claim at a time:
--   `Finish` is finish_and_claim_next, `Cancel` is cancel_node and cancel_all, `Removal` is
--   remove_message_subtree, `Settle` is record_session, complete_claim, fail_claim and the views, and
--   `Revoked` says what a claim can still write at its end.
--   `Trees.Repository` is `TreeRepository` (repository.py), which finds the tree of a message.
--   `Invariant` states what a consistent tree is, and the other children hold the proofs.
-- - `Providers.Execution`, `Providers.Gate` and `Providers.Attempt`: `providers/admission.py`. An
--   execution has a budget of attempts; the gate lets one probe through while a provider recovers from
--   failures, and turns everybody away in a quarantine after the budget of a probe is used up; an attempt
--   holds a permit of the gate, a claim of the execution and one slot.
-- - `Providers.RateLimit`: `core/rate_limit.py`, the limiter that an admission waits for.
-- - `Providers.Holdback`: `providers/stream_recovery.py`, which holds the events of a stream back for
--   as long as a failure can be retried out of the client's sight.
-- - `Streaming`: `core/anthropic/streaming` and a stream that writes by it. `Streaming.Events` holds the
--   events as data, `Streaming.Blocks` and `Streaming.Ledger` with `Calls` are `StreamBlockLedger` and
--   `AnthropicStreamLedger` (ledger.py), `Streaming.Contract` is the checker of stream_contracts.py,
--   `Streaming.Usage` is `core/anthropic/usage.py`, `Streaming.ToolNames` is
--   `core/openai_tool_names.py`, and `Streaming.Responses` with `Feed` is `ResponsesProviderStream`
--   (`core/openai_responses/provider_stream.py`), which answers each event of an upstream response by
--   calls of the ledger. The other children relate the ledger to the checker's state: `Tracked` block by
--   block, `Named` the text, thinking and tool blocks by name, `Protocol`, `Methods` and `ToolCalls` each
--   method, `Slots` and `Turns` the calls of a response. `Texts`, `Said`, `Spoken` and `Heard` follow the
--   text through the methods. `ToolNames.Aliases`, `ToolNames.RoundTrip` and `Usage.Sums` are about their
--   parents alone.
-- - `Sessions`: `application/code_sessions`. `Sessions.Models` is models.py, and `Sessions.State` and
--   `Sessions.Progress` are `SessionState` (state.py): what a session allows, and the changes that it
--   stages, which `apply_progress` takes once they are saved. `Sessions.Turns` and
--   `Sessions.Binding` hold the proofs.
--
-- Conventions. A method is a function from the state to the new state and the result. The methods of
-- `MessageTree` run under its lock, and a coroutine of the admission controller runs alone between
-- two awaits, so each such section is one function; the orders in which sections run are sequences
-- of steps (`Providers.Gate.Recovery`). Where a method raises before it writes, `raised` leaves the
-- state as it was; a method of `MessageTree` can raise between two writes, for a node without a
-- status message, and its `raised` carries the tree that it leaves behind (`Step`). The ids that
-- `uuid4` draws, the readings of clocks, the jitter, whether a trace event raises, and the verdict
-- on whether an error is retryable are arguments. Times are natural numbers, in place of floats.
--
-- Fuel. The walk over a graph takes one round for each node (or prompt and status) and one to see that
-- the stack is empty, since a walk meets each of them once; the loop of finish_and_claim_next takes one
-- round for each queued item and one to see that the queue is empty, since each round takes one item.
-- The search for a free alias of a tool takes one round for each reserved name and one more.
--
-- Streams. A generator that its caller exhausts is a function to the list of its events, and an event is
-- kept as data, so that the printing and parsing of server-sent events is left out. Of `json`, `re`,
-- `hashlib` and the tokenizer the results are parameters.
--
-- Not modelled: logging, the content of trace events, the input and output of the platforms and
-- providers, the snapshots' JSON, the manager of the trees, and the conversion of requests between
-- the providers' formats.
pub mod Base
pub mod Providers
pub mod Sessions
pub mod Streaming
pub mod Trees
