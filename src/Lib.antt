-- ===== src/Lib.antt =====
-- Verification library of the API gateway.
--
-- The gateway has three entries (OpenAI Chat, Anthropic Messages, OpenAI Responses). A request is
-- authenticated (internal/auth), parsed into one unified form (internal/protocol), checked and
-- perhaps answered from a cache (internal/api, internal/cache), and routed to one of the channels
-- that offer the model (internal/router), with the channel's keys (internal/channel) and the tables
-- (internal/store); the answer, or a stream of events, is written in the entry's own format.
--
-- Files:
--   Base             shared names: tests, lists, maps as association lists, results, integers, texts
--   Protocol/Ir      internal/protocol/ir.go, the types
--   Protocol/Fold    internal/protocol/ir.go, FoldSystemIntoUser, with the arrays it writes in place
--   Protocol/OpenAi  internal/protocol/openai.go: Parser (OpenAIStreamParser), Writer
--                    (OpenAIChatStreamWriter), Request (ParseOpenAIChatRequest,
--                    SerializeOpenAIChatRequest), Response (ParseOpenAIChatResponse,
--                    SerializeOpenAIChatResponse) and ToolChoice (normalizeToolChoice, and
--                    normalizeAnthropicToolChoice of anthropic.go)
--   Protocol/Anthropic  internal/protocol/anthropic.go: Parser (AnthropicStreamParser),
--                    Writer (AnthropicStreamWriter), Reasons (the tables of stop reasons), Blocks
--                    (content blocks and images), Messages (ParseAnthropicMessagesRequest), Upstream
--                    (SerializeAnthropicMessagesRequest), Response (both ways)
--   Protocol/Responses  internal/protocol/responses.go: Input (ParseResponsesRequest), Output
--                    (SerializeResponsesResponse), Writer (ResponsesStreamWriter)
--   Store            internal/store/channels.go and models.go: a statement is a function on rows
--   Upstream         internal/upstream: Errors (Error, parseUpstreamError, defaultErrorType), Adapters
--                    (Chat and ChatStream of both adapters)
--   Channel/Keys     internal/channel/manager.go: SelectKey, MarkKeyFailed
--   Channel/Detect   internal/channel/detect.go: Detect, SyncModels, probeCapabilities
--   Channel/Probe    internal/channel/manager.go: StartProbe, ProbeChannel and the status
--   Channel/Trials   internal/channel/manager.go: ProbeCapabilitiesOnly, MaskKey
--   Channel/Health   internal/channel/health.go: CheckOnce
--   Router           internal/router/router.go: Order (channelOrder, the limit of attempts), Types
--                    (prepareReq, supportedChannelType), Loop (the two nested loops), Chat (Chat,
--                    ChatStream), Verdicts (the adapters' errors as the router takes them)
--   Cache            internal/cache/cache.go: New, Get, Set
--   Crypto           internal/crypto/crypto.go: New, Encrypt, Decrypt
--   Config           internal/config/config.go: setDefaults, applyEnv, Load
--   Api/Auth         internal/auth/middleware.go: APIAuth, CheckModelAllowed
--   Api/Errors       internal/api/chat.go: errorStatus, writeRouteError, writeEntryError
--   Api/Handler      internal/api/chat.go: handle, handleNonStream, handleStream, logRequest
--   Api/Models       internal/api/chat.go: the names that Models lists
-- Each module called Tests has examples and the witnesses of the results.
--
-- How state and calls are modelled: a method takes the receiver's state and returns it. The router's
-- World has the shared tables, the counters and the array behind the messages, and records the calls.
-- What the code calls outside is a parameter: the adapters' HTTP calls, the JSON library, hashes and
-- ciphers, the clock, random numbers, and the errors of the database and of the response writer, which
-- may come at any step. Locks are not modelled: an operation runs alone.
--
-- Loops: the router's inner loop recurs on the attempts that are left, which the source's counter
-- bounds, so no fuel is chosen; the outer loop, the parsers and the writers recur on lists.
-- Integers that count rows, attempts or milliseconds are natural numbers; the JSON integers of tool
-- calls and usages are signed.
--
-- Each place of the array behind the messages of a request has the number of the array behind its
-- content, since the compaction of FoldSystemIntoUser leaves copies that share one.
--
-- A goroutine of StartProbe runs to its end by itself; other starts come before or after it.
--
-- Not modelled: the tables of users, tokens and logs with their pages and statistics, the backup,
-- passwords and sessions, the admin pages and the start of the server.
pub mod Base
pub mod Protocol
pub mod Store
pub mod Upstream
pub mod Channel
pub mod Router
pub mod Cache
pub mod Config
pub mod Crypto
pub mod Api
