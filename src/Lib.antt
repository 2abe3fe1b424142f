-- ===== src/Lib.antt =====
-- Agentic Voice SDR: a voice agent that calls leads, talks to them and books meetings. This library
-- models the core of the program, the Go packages under internal/, and proves what makes it
-- correct.
--
-- How the parts work together. A call (Call) carries audio frames (Audiosocket) between the
-- telephone system and the agent. What is said becomes turns of a conversation (Conversation). For
-- a finalized turn of the lead the coordinator (Turnloop) reserves the one response to it at the
-- gate (Gate), has the turn processed (Turnruntime), authorizes and starts the response, and sends
-- it; whatever goes wrong after the reservation fails the response. What the model's audio then
-- belongs to, and how the response ends, goes through leases (Voiceflow) that the bridge to the
-- telephone takes (Bridge). Processing a turn asks a provider for a decision (Decision), puts a
-- requested tool before the policy (Policy), builds the directive (Directive), and dispatches the
-- tool if the directive is executable (Toolruntime).
--
-- Which file models what:
--   Call             internal/domain/call/session.go. CallSession.Transition is transition.
--   Conversation     internal/domain/conversation/conversation.go. RecordTurn, RecordSignal and
--                    Transition are record_turn, record_signal and transition; each takes the state and
--                    returns the state after it with the result.
--   Tools            internal/domain/tools: canonical.go, in Tools/Definition definition.go and
--                    schema.go, in Tools/Registry registry.go.
--   Decision         internal/domain/conversation/advisor.go, the validation of decision inputs in
--                    tool_policy.go, and in Decision/Script the provider of decision_provider.go.
--   Policy           internal/domain/conversation/tool_policy.go. EvaluateToolPolicy is
--                    evaluate_tool_policy, its switch decide_policy.
--   Directive        internal/domain/conversation/orchestrator.go. BuildTurnDirective is
--                    build_turn_directive; the directive before its validation is assemble.
--   Gate             internal/domain/conversation/response_gate.go. Each method is one function on the
--                    map of cycles; the switch of a method on the state of the key is a function of its
--                    own (promote, starting, completing, failing).
--   Scheduling       internal/domain/scheduling/policy.go. What package time knows of the zone is the
--                    record Zone.
--   Audiosocket      internal/telephony/audiosocket: frame.go, and in Audiosocket/Stream stream.go.
--   Toolruntime      internal/toolruntime/dispatcher.go.
--   Turnruntime      internal/turnruntime/runtime.go. ProcessTurn is process_turn: plan_turn is what
--                    it does before the dispatch, carry_out the dispatch and what follows.
--   Turnloop         internal/turnloop/coordinator.go. Begin is begin; from each point on where it can
--                    fail, the rest of it is a function (process_reserved, authorize_processed,
--                    start_authorized, send_started, answered). Turnloop/Settle has Complete and Fail.
--   Bridge           internal/telephony/bridge/split_bridge.go, the loop runSplitResponses. Its switch
--                    is round; what it asks of others is an Action, what they answer is in Answers.
--   Voiceflow        internal/voiceflow/response_lifecycle.go. A method is the pieces that its mutex
--                    makes atomic; Voiceflow/Callers has their interleavings. Voiceflow/Transcripts is
--                    transcript_handler.go, HandleTranscript being handle_transcript.
--   Sip              internal/telephony/sip. Sip/Config is config.go, Sip/Pjsip is pjsip.go, where the
--                    template is the list of its lines. reconciler.go is Sip/Resolver, the texts of the
--                    resolver's files, Sip/Reloader, the calls of RealAsteriskReloader on those files,
--                    Sip/Manager, where ApplyTrunk is apply_trunk over the two interfaces, and
--                    Sip/Installation, where the reloader fills its interface. Sip/Ownership is
--                    applySecureFilePermissions, over the calls of the system. Sip/Pinning is
--                    PinConfig of internal/httpapi/sip_runtime.go. Base/Runs has the calls on a
--                    shared state and the rules for what holds after them.
--   Agentprompt      internal/domain/agentprompt/agentprompt.go. A method of PromptService is a call on
--                    the state of a repository, which is any.
--   Sessionprompt    internal/sessionprompt/builder.go. Build is build, after its first guards
--                    resolve; the source of snapshots is a parameter.
-- Base holds what they share, Samples the data of the tests. The theorems stand in child modules
-- named for what they prove, the tests of a component in its child Tests.
--
-- A retry of a call and a callback are placed by the scheduling policy (Scheduling). The trunks over
-- which calls go are configured in Asterisk by a manager that validates, stages, verifies and rolls
-- back (Sip). What the agent is told is the active version of its prompt (Agentprompt), which the
-- builder of a session joins to the core of its instruction (Sessionprompt).
--
-- Conventions. An error is the err of a Result; the data type Error of a module has the errors of
-- its package. A pointer, function or map that may be nil is an Option. A mutex makes a method one
-- step, so the interleavings of concurrent callers are the sequences of operations; Begin, which
-- holds no mutex between its steps, finds there what other callers have done meanwhile. A context
-- is what its Err returns at each place where a call reads it. Calls of parameters (an executor, a
-- responder) are written down in the result. A map is an association list. A string that a type of
-- the source restricts to constants is a data type, with a constructor unset for the empty string
-- where the code tests for it.
--
-- Bounds and fuel. A byte is a number below 256; the lengths of frames are written as the two bytes
-- of their 16-bit value. The loop that writes a frame runs on fuel, the number of bytes to write,
-- and that is enough since each round that goes on has written a byte. The search for a business
-- time looks at eight days, as the code does, and the theorem on retries says that this is enough in a zone that shifts no clock on them.
-- The counters of generations and of lead turns have 64 bits and wrap around. All other loops are
-- structural.
--
-- In Sip every operation on a file and every command has a number, and an environment says which of
-- them fail, what a failed write leaves and what Asterisk prints; the theorems hold for every
-- environment. A number of 64 bits is printed with at most 20 digits.
--
-- Parameters are the code outside: time zones, package net, decision providers, executors, responders,
-- readers and writers. What is asked of a zone is that it shifts no clock on the eight days of a
-- search, of package net that it takes no text with a line feed for an address. Not modelled are
-- clocks and times, log and error texts, the HTTP interface but for PinConfig, the clients of remote
-- services, the SQL stores and the start of the process, which are input and output around these
-- parts; nor are the WhatsApp adapters, telemetry, the AudioSocket server, and of the bridge the
-- loops other than runSplitResponses.
pub mod Base
pub mod Samples
pub mod Call
pub mod Conversation
pub mod Tools
pub mod Decision
pub mod Policy
pub mod Directive
pub mod Gate
pub mod Audiosocket
pub mod Toolruntime
pub mod Turnruntime
pub mod Turnloop
pub mod Voiceflow
pub mod Scheduling
pub mod Bridge
pub mod Sip
pub mod Agentprompt
pub mod Sessionprompt
