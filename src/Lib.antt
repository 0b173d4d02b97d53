-- ===== src/Lib.antt =====
-- The core services of the hub: who the clients are, what they may send and how devices join.
--
-- The auth module (done_mod/mod_auth) keeps the clients in a password file and manages them. After
-- a change it hands the list of clients to the message server (done_mod/mod_bus), which
-- authenticates and authorises their connections. The provisioning service (done_mod/mod_prov)
-- records the requests of devices to join, and adds the approved ones through the auth module.
-- The services and their clients use the bus through the hub client (done_cli/cli_done), which
-- dispatches messages to the handlers of an application, over a transport (done_cli/cli_done/transport)
-- that is NATS in this repository. The history service
-- (done_mod/mod_hist) keeps the values that Things send in a bucket for each Thing, and the latest of
-- each name; remote clients read the stored values by cursors that it caches. The state service
-- (done_mod/mod_state) keeps texts for its clients, each in a bucket of its own, and the directory
-- (done_mod/mod_dir) the descriptions of Things. They work on any bucket store of done_tool/buckets;
-- the one of this repository is on bbolt. The launcher (done_mod/mod_run) starts and stops the
-- services as processes.
--
-- Files:
--   Prelude, Errors: shared names, tests, dictionaries (Go's maps as association lists with distinct
--     keys), and the errors by their cause.
--   Transport: subjects.go (Subjects); Split is Go's strings.Split. Api is the interface IHubTransport,
--     which Nats, NatsTransport.go, fills, and Delivery joins it to the hub client.
--   Cli: HubClient.go. Cli has the client and its handlers (onEvent, onRequest, SetRPCCapability),
--     Address its addresses, Publishing the Pub methods, Keys the connections and key files, and
--     Requests is HandleRequestMessage.go. Dispatch and Capabilities say which handler is called.
--   Bus: Api is IMsgServer.go, a record of operations with the law of ApplyAuth. Slices is Go's
--     append on slices that share arrays. Nats is the permissions of NatsAuth.go (MakePermissions as
--     make_permissions, ApplyAuth as apply_auth, SetServicePermissions as set_service_permissions),
--     Nats/Tokens its tokens and validations (CreateToken, ValidateJWTToken, ValidateNKey, ...), and
--     Nats/Server makes it an instance of the record.
--   Auth: Api and Roles are auth_api, Store is AuthnFileStore.go, Clients is AuthManageClients.go and
--     Profile is AuthManageProfile.go, the last two over any message server. Service is
--     AuthService.go, over any transport.
--   Prov: prov_api and ManageIdProvService.go.
--   Buckets: done_tool/buckets. Api and Stores are the interfaces of IBucketStore.go, records of
--     operations with the laws that it documents; CursorCache is CursorCache.go. Bolts is the store
--     on bbolt: Bolts/Cursor is BBoltCursor.go, Bolts/Bucket is BoltBucket.go and Bolts/Store is
--     BoltStore.go; the Interface files below them fill the two records.
--   Hist: of done_mod/mod_hist/hist_srv, the rules of ManageHistory.go (Retention), the keys of
--     AddHistory.go and HistoryCursor.go (Encoding), AddMessage (Adding) and AddMessages (Bulk).
--     Cursors is HistoryCursor.go, with the loops of findNextName and findPrevName, and
--     ReadHistoryService.go (Cursors/Service and Cursors/Opening). Latest is LatestPropertiesStore.go.
--   State: StateService.go of done_mod/mod_state, over any bucket store; its messages and the
--     capability that its start registers in Messages, the client of StateClient.go in Client.
--   Dir: the documents of the directory, UpdateDirectoryService.go and ReadDirectoryService.go of
--     done_mod/mod_dir/dir_srv, over any bucket store; its batches and the opening of a cursor
--     (Batches), and the calls on its cursors, DirectoryCursor.go (Cursors).
--   Run: the launcher of done_mod/mod_run/run_srv, LauncherService.go and StartStopPlugins.go, with its
--     calls and the ends of processes as the step relation of Run/Steps, the start of the launcher in
--     Starting, and the stop of a process, Stop.go, in Processes with the hundred rounds of its loop.
--   Things: of done_tool/things, the values of properties (PropertyValues.go) in Properties, and the
--     documents that describe Things (TD.go) in Documents.
--   Web: the browser sessions of done_mod/mod_web/web_session, SessionManager.go.
--   Tests: concrete clients, stores and servers, and runs on them.
--
-- An operation has the Go method's name in snake_case, takes its arguments and the state, and
-- returns the new state beside its results; an error is an `Option Error`. Each one is one
-- step, so that calls are seen one after another; of GetValues (Things.Properties) and
-- ActivateNewSession (Web), which do not hold their mutex from the beginning to the end, the parts that
-- hold it are separate operations too, and other calls may come between them. The branches after an
-- early return are helpers by clauses on the error.
--
-- What the code calls outside the repository is a parameter: `Io` holds the answers of the file
-- system, `Bcrypt` the hashes, `Library` and `TokenReader` the NATS packages, with the laws that
-- they document; `NatsLibrary` is the connection of the NATS client library; `BoltCursors` and `BoltDatabase` are bbolt, `Json` is encoding/json. The time and
-- the salt are arguments. A handler of an application is a function on the application's state, and
-- a method that reflection calls comes with the decoders of its parameters. Goroutines of the profile service and of the launcher are tasks in the
-- state, which a relation `Step` runs in any order.
--
-- The background loop of the cursor cache is modelled by its rounds. The loops of findNextName and
-- findPrevName, which end when the cursor does, take fuel: more than the number of entries ahead is
-- enough. Every other loop is a recursion on its list or its count. Numbers are natural numbers;
-- the code's counters and times stay far below the width of their types, but for the counter of
-- the cursor cache and the reference count of the store, of 64 and 32 bits, which wrap.
--
-- Not modelled: the NATS library and its server, the streams of JetStream, HTTP, TLS, logging, command
-- lines, the pages of the web server and the certificate service. The order of Go's map iteration is the order
-- of the dictionary. JSON is the identity, but for bytes that are no JSON, and but for
-- the parameters `Json` of Hist/Latest and `ValueJson` of Dir.
pub mod Prelude
pub mod Errors
pub mod Transport
pub mod Cli
pub mod Bus
pub mod Auth
pub mod Buckets
pub mod Hist
pub mod Dir
pub mod State
pub mod Things
pub mod Web
pub mod Run
pub mod Prov
pub mod Tests
