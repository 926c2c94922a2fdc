-- ===== src/Lib.antt =====
-- OpsUp, a web console for SSH terminals, SFTP files and RDP desktops: the browser client, which
-- is the TypeScript under ui/src, and the parts of the Go backend under internal that the
-- client's promises rest on: the checks and the storing of servers, what is dialled for them, the
-- relay of typed text, and uploads.
--
-- The parts. `MainPage` keeps the open tabs; each tab of a shell runs the hook
-- `useTerminalConnection`, whose socket carries typed text out and output in, and each tab of a
-- desktop holds the page of rdp/client.ts in a frame. `FileManager` shows a directory through the
-- hook `useDirectory`. `ServerFormModal` edits the servers that tabs are opened for. All requests
-- carry the token that signing in stores.
--
-- - Terminal: ui/src/hooks/useTerminalConnection.ts. Frames is `inputFrames`; State the variables
--   of the hook and of one call of `connect`; Handlers the closures of `connect`, from `fail` to
--   `onmessage`; Page is `connect`, its cleanup, and the life of the hook over several
--   connections. Quiet, Queue, Delivery, Timers, Progress, Wakeup, Invariant, Lifecycle and
--   Failure hold proofs. Palette and View are ui/src/components/TerminalTab.tsx: the colours, the
--   keys, what is drawn.
-- - Touch: Gesture is ui/src/utils/terminalTouch.ts; Scrolling holds proofs.
-- - Files: Directory is ui/src/hooks/useDirectory.ts with its requests in flight, aborted and
--   answered in any order; Manager, Download, Paths and Size are the handlers, the paths and
--   `formatSize` of ui/src/components/FileManager.tsx. Requests, Listing, Capture, Crumbs and
--   Transfers hold proofs.
-- - Types: ui/src/types/index.ts.
-- - Tabs: Workspace is the tabs of ui/src/pages/MainPage.tsx and the selection of
--   ui/src/components/TerminalTabs.tsx; Font and Status are the font size and the statuses of the
--   latter. Life runs the user's actions; Keys and Laws hold proofs.
-- - Servers: Form is `handleSubmit` of ui/src/components/ServerFormModal.tsx, Opening the effect
--   that fills the form, KeyEntry its other inputs and the import of a key file, Sidebar the
--   search and the groups of ui/src/components/ServerSidebar.tsx, Folding their order and their
--   buttons, LongPress the touches on its cards, Actions its menus, dialogs and requests.
--   Patterns is the rules of the form, with ui/src/utils/hostKey.ts; Texts and Backend are
--   `serverCreateReq`, `validate` and `resolveCredentials` of internal/api/server_handler.go, and
--   `decode`, which is JSON from the form's record to that one; Texts has the tests of
--   `validate` on texts. Credentials, Groups, Ordered, Shown,
--   Shells, Contract, Fingerprints, HostKeys, Accepted, Resolving and Stored hold proofs, the
--   last six on the form and the backend together.
-- - Rdp: Client is ui/src/rdp/client.ts, whose submit handler is cut at its two `await`s; Frame
--   is ui/src/components/RdpTab.tsx with the page in its frame and the messages on their way.
--   Sessions, Sizes, Target, Address, Arrival and InStep hold proofs; Address reads a
--   destination back, as a server and a port.
-- - Auth: Storage is ui/src/hooks/useAuth.ts, ui/src/api/client.ts, `PrivateRoute` of
--   ui/src/App.tsx and `logout` of ui/src/pages/MainPage.tsx; Pages is ui/src/pages/LoginPage.tsx
--   and ui/src/pages/SetupPage.tsx; Setup is the rules of the latter and those of
--   internal/api/auth_handler.go. Signing holds proofs.
-- - Theme: Storage, Colors, Document and Tokens are the mode and the accent, the tables of
--   colours, the effect and `themeConfig` of ui/src/contexts/ThemeContext.tsx; Reload and Styles
--   hold proofs.
-- - Relay: Shell is the reader, the channel and the writer of internal/api/terminal_handler.go,
--   with `Resize` of internal/sshclient/session.go. Order and EndToEnd hold proofs, the latter on
--   the hook and the relay together.
-- - Store: Records is internal/models/server.go; Saving `saveServer` and `DeleteServer` of
--   internal/api/server_handler.go; Requests a list of such requests; Secrets is
--   internal/crypto/encryption.go; Dialing is internal/api/connection.go and, of
--   internal/sshclient/client.go, `hostKeyCallback`, `makeConfig` and the order of the dialling.
--   Rows, Lawful, Sound, Answers, Dialled and RoundTrip hold proofs.
-- - Upload: Remote is what is used of the SFTP library, Publish is `Upload` of
--   internal/sftpclient/client.go. Keeping, Filling, Atomic and Done hold proofs.
-- - Api: Calls is the functions of ui/src/api/servers.ts, ui/src/api/files.ts and
--   ui/src/api/auth.ts, Routes the routes of internal/api/router.go; Reaching holds proofs.
-- - Limit: Buckets is internal/api/rate_limit.go; Passes holds proofs.
-- - Prelude: shared names and lemmas on lists, tests, integers and decimal numerals.
--
-- A callback is a function on the state; what it calls outside is recorded in the state (`sent`,
-- `written`) or returned as a list of calls. An interleaving is a list of events, and a theorem
-- on `run` is about each such list.
--
-- Parameters. `Browser` is what the terminal uses of WebSocket and xterm.js: whether a send
-- throws, what is buffered, how a size fits. `world` is the answer of the API to a request for a
-- directory. The theorem on timers supposes that a socket which was closed does not open again.
-- `trim` of the form and `lower` of the search are any functions. `encrypt` and `find` of the
-- backend are `crypto.Encrypt` and `models.GetServer`; where both sides are composed,
-- `crypto.Encrypt` is that of Secrets, whose `Library` supposes that hexadecimal reads back and
-- that what is sealed is opened. `collate` of the sidebar is `localeCompare`, supposed to be a
-- total order. `Shell` is the SSH session, and `Sftp` the file server, whose operations are
-- supposed to do what they document and to leave other files alone. gin's router is `dispatch`,
-- supposed to give a path that fits one route only to that route. Go's `select` is any order of
-- the events. The texts of errors of libraries are given. `scale` is the number of units in a
-- pixel, and `Floats` the two divisions of a touch in floating point, with any rounding.
--
-- Bounds and fuel. `frames_from` has as many rounds as bytes, and each round takes at least one;
-- `pump_loop` has the length of the queue, which is shown to be enough; `decimal` of n has n + 1
-- rounds, one for each digit; `scale` of Files has the three steps between four units. Numbers
-- are natural numbers, as the sizes, counts and ids of the client are; coordinates of a touch, and
-- the numbers of a request to the backend, are integers. A port or the id of a jump server is kept
-- as a natural number once `validate` took it.
--
-- Not modelled: the rendering, styles and messages of the components beyond those that a handler
-- decides; the height of the viewport; and of the backend the headers of requests and the sizes of
-- their bodies, sessions and tokens, the output of a shell, the desktop proxy, the file handlers
-- but the upload, the configuration and the migrations. A request of the backend is one step: two
-- requests at once are in some order.
pub mod Prelude
pub mod Terminal
pub mod Files
pub mod Types
pub mod Upload
pub mod Api
pub mod Limit
pub mod Tabs
pub mod Servers
pub mod Rdp
pub mod Auth
pub mod Theme
pub mod Touch
pub mod Relay
pub mod Store
