-- ===== src/Lib.antt =====
-- boxd's web panel: the form models of its editors (ui/src/features) and its link to the server
-- (ui/src/lib).
--
-- The panel edits the JSON configuration of a proxy server. A form is a table of fields, each with a
-- dotted path into the edited object and with the rules that show it; the form models read and write
-- those paths, prune the fields that an edit hides, and clean an object up when its type or its
-- action changes. An undefined value is `none` of `Option JsonValue`, an object the list of its own
-- properties in their order.
--
-- Base                 the shared names, tests and list functions
-- Json, Text, Form     JSON values, split(".") and String(value), field tables
-- Policy/FormModel     ui/src/features/policy/policy-form-model.ts
-- Policy/Route         ui/src/features/policy/route-form-model.ts
-- Policy/Dns           ui/src/features/policy/dns-form-cleanup.ts and dns-form-model.ts
-- Policy/Dialog        ui/src/features/policy/policy-dialog-state.ts, as a state machine; what the
--                      dialogs of ui/src/features/policy ask for, and the fields of their sections
-- Policy/Number        ui/src/features/policy/policy-number-transform.ts, route-form-transform.ts,
--                      policy-field-update.ts and the transforms of dns-form-model.ts
-- Policy/Editor        ui/src/features/policy/route-visual-editor.tsx, dns-visual-editor.tsx and
--                      policy-page.tsx: the actions on rules and what is saved;
--                      the JSON drafts of policy-form-fields.tsx
-- Advanced             ui/src/features/advanced/endpoints-form-model.ts and experimental-form-model.ts
-- Proxy/FormModel      ui/src/features/proxy/proxy-form-model.ts
-- Proxy/Inbound        ui/src/features/proxy/inbound-form-model.ts
-- Proxy/Outbound       ui/src/features/proxy/outbound-form-model.ts
-- Proxy/Update         ui/src/features/proxy/proxy-form-fields.tsx, defaultUpdate
-- Proxy/ListPage       ui/src/features/proxy/proxy-list-page.tsx, what it shows and saves
-- Api/Sse              ui/src/lib/api/sse.ts, openSSE as a step relation
-- Api/Client           ui/src/lib/api/client.ts
-- Api/Session, Auth    ui/src/lib/session.ts and ui/src/features/auth/auth-context.tsx
-- Api/Preferences      ui/src/lib/storage.ts and ui/src/features/observability/log-level.ts
-- Api/Streams          ui/src/features/observability/use-stream-buffer.ts and
--                      ui/src/lib/speed-test-urls.ts
-- Config               ui/src/features/config/config-update.ts
-- Subscriptions        ui/src/features/subscriptions/subscription-dialog.tsx, its URL test settings
-- Nodes                ui/src/features/nodes, groupSubscriptions and the inputs of the tests
-- Tests                the theorems at concrete objects
--
-- A function keeps its name: `changeOutboundType` is change_outbound_type. The for and reduce loops
-- are `reduce` with the loop's variables as its state, and the while loop of the pruning is recursion
-- on fuel. A pass that changes something removes a field, so one pass more than there are fields is
-- enough, which Policy/FormModel/Prune shows for every table and every object.
--
-- What the browser provides is a parameter: JSON.parse and JSON.stringify, Number and toUpperCase on a
-- text, Date.parse and the time, the text of each read of a stream. A promise that settles, a timer
-- that fires and a call from outside are the constructors of a step relation. The editors hand their
-- objects to the form models, the dialogs refuse what a number transform refuses, and an answer that
-- the API client takes for unauthorized clears the session of the sign-in.
--
-- Not modelled: what an object inherits from Object.prototype, so that a key such as "constructor"
-- reads as absent from objects and tables alike; numbers other than whole ones but for their text;
-- the labels' translation, the rendering and the queries of the dialogs and pages in React, the table of
-- the server's endpoints, the summaries of DNS servers and rules, and the Go server. The checks of
-- ui/src/lib/urltest.ts are parameters of Subscriptions.
pub mod Base
pub mod Text
pub mod Json
pub mod Form
pub mod Policy
pub mod Proxy
pub mod Advanced
pub mod Api
pub mod Config
pub mod Subscriptions
pub mod Nodes
pub mod Tests
