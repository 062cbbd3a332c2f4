-- ===== src/Lib.antt =====
-- OpenClaw Enterprise: the policies that govern what an agent may do, and the protocol by which
-- agents exchange messages.
--
-- The program is a set of plugins that a host loads. A tool call, a model call and a message to
-- another agent each pass a hook of a plugin, which asks for a decision and lets the call go on,
-- changes it or throws. The parts modelled here and where they stand:
--
-- - Shared: plugins/shared/src/types.ts (Shared/Types, Shared/Policy), constants.ts
--   (Shared/Levels) and errors.ts (Shared/Errors). A union of texts is an enumeration; an error
--   class is a constructor of EnterpriseError; a computation that may throw is a Result.
-- - Policy/Content, Policy/Merge, Policy/Resolver, Policy/Validator: plugins/policy-engine/src/
--   hierarchy/resolver.ts, resolve-method.ts and validator.ts. A policy is a text of keys and
--   values (parsePolicyContent is parse_policy_content), which `resolve` merges down the scopes
--   enterprise, org, team and user (mergeRestrictive is merge_restrictive).
-- - Policy/Evaluate: plugins/policy-engine/src/evaluator/opa-client.ts, evaluator/evaluate.ts and
--   hooks.ts. OPA's answer becomes a decision, and the hook before a tool runs lets it run or
--   throws.
-- - Policy/ModelRouter: evaluator/model-router.ts. Policy/Classify: classification/classify.ts.
-- - Ocip/Envelope, Ocip/Parser, Ocip/Commitment: plugins/ocip-protocol/src/envelope. The metadata
--   of a message, from and to the untyped object that travels (Shared/Json).
-- - Ocip/Counter: loop-prevention/counter.ts. Ocip/Filter, Ocip/CrossOrg: classification.
--   Ocip/Logger: exchange-log/logger.ts.
-- - Ocip/Session: the state, the gateway and the monad that the hooks of
--   plugins/ocip-protocol/src/hooks.ts run in. Ocip/Hooks: the hook on an outgoing message;
--   Ocip/Hooks/Receive: the hook on an incoming one; Ocip/Hooks/Limit runs them over sequences.
-- - AutoResponse/Queue: plugins/auto-response/src/approval/queue.ts. AutoResponse/Responder:
--   classifier/classifier.ts and responder/responder.ts. AutoResponse/Message: hooks.ts, from an
--   incoming message to an answer that is sent, queued for a user, or blocked.
-- - Auth/Roles: plugins/auth-enterprise/src/rbac/mapper.ts, from claims to permissions.
--   Auth/Keys, Auth/Validator: oidc/validator.ts, the cache of keys and the check of a token.
--   Auth/Middleware: hooks.ts, which lets a request on with the user of its token. Auth/Sessions and
--   Auth/Admin: routes.ts, the login callback with its sessions, and the tenants and connectors
--   (Auth/Http: requests and responses).
-- - TaskIntelligence: plugins/task-intelligence/src. Scanner (discovery/scanner.ts) makes tasks of
--   what the connectors give, Correlator (correlation/correlator.ts) groups them, Scorer
--   (scoring/scorer.ts) ranks them, and Retention (discovery/retention.ts) archives and purges them.
-- - Visualization/Graph: plugins/visualization/src/graphs/dependency.ts, the graph of the tasks that
--   block each other (Shared/Tasks: the types of tasks). Visualization/Matrix:
--   matrix/eisenhower.ts, the tasks by urgency and importance.
-- - Audit/Query: plugins/audit-enterprise/src/query/query-method.ts, the conditions and the pages of
--   a query of the audit log. Audit/Writer: writer/log-method.ts and writer/writer.ts, the row that
--   audit.log inserts.
-- - WorkTracking: plugins/work-tracking/src. PrJira (correlation/pr-jira.ts) finds the tickets of a
--   pull request, Updater (updater/updater.ts) comments and moves them, and Hooks (hooks.ts) handles
--   the events of GitHub.
-- - Connector: plugins/shared/src/connector-base.ts, the policy check around each read and write of
--   a connector (Shared/Messages: the texts of the errors, which it searches).
-- - Common: lists, dictionaries, integers and texts. Tests: the theorems at concrete inputs.
--
-- State. The counter's `Map`, the approval queue's and a plain object with text keys are
-- association lists in insertion order. The hooks take and return a record of the map, the audit
-- records written so far and, for the exchange protocol, the message's context; they return it also
-- where they throw, since a write before a throw remains. A state that the counter hands out is the
-- one in its map.
--
-- Parameters. The answers of OPA, of the gateway's `policy.evaluate` and `audit.log`, of the
-- policy store and of the models, the clock's text and `String.prototype.toLowerCase`
-- are arguments: the theorems hold for every one of them. So are the runtime's `atob`, `JSON.parse` and
-- verification of signatures, the endpoints of keys and tokens, the reading of a time's text, the
-- confidences of the correlator, whose sums of fractions are not modelled, the matches of the pattern
-- of ticket keys, the database of the audit log, what its driver gives back of a time and of a JSON
-- value, and the store of tasks. The laws of the database stand in Audit/Query/Pages and
-- Audit/Writer/RoundTrip, those of the store in TaskIntelligence/Retention/Done.
--
-- Choices. All recursion is structural but that of the traversal for the critical path, which takes
-- as fuel one more than the tasks in its queue and in its map of in-degrees: each round takes one
-- from the queue, and each task is put there at most once by the rounds. Numbers are exact, which the source's
-- doubles are below 2 ^ 53; the fractions that a remote envelope can hold in its rounds are left
-- out, and values that `Number.isFinite` refuses are kept apart. A value that the source reads by
-- a cast is taken at the type of the cast. A handler runs without another in between; in the
-- source another can run only while it awaits the gateway. A key `__proto__` is a key as any other,
-- and a plain object holds the keys written to it, not those that it inherits.
--
-- Not modelled: the requests of a data subject, the briefing, the standup, organisation intelligence and the
-- mind map of the visualization, whose code stands beside what is modelled and
-- reaches it through calls that are parameters here; the registration with the host, timers, health
-- checks, the connectors' remote calls, the database and the Kubernetes operator, which decide
-- nothing that the theorems speak of.
pub mod Common
pub mod Shared
pub mod Policy
pub mod Ocip
pub mod AutoResponse
pub mod Auth
pub mod Connector
pub mod Visualization
pub mod TaskIntelligence
pub mod Audit
pub mod WorkTracking
pub mod Tests
