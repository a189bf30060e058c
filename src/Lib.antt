-- ===== src/Lib.antt =====
-- A model of ProxyRuleManager: the rules that decide for each host between a proxy, a direct
-- connection and a rejection, the configuration that holds them, and the services that apply them.
--
-- The rule list lives in the configuration store. The edits of the interface change it through the
-- store's Update, which restores the invariants of the list. The local proxy asks the rule engine
-- for each request, the redirection of applications asks it for each connection. The proxy and the
-- monitor of connections write to the log store. The redirection rewrites the packets of the
-- connections that its table tracks, so that they reach a listener of its own.
--
-- - Model, Model.Equality, Model.Safety: internal/model/types.go and tun_profile_safety.go. A string
--   type with constants is a data type with a constructor `other` for any further string.
-- - Rules.Engine, Rules.Catalog, Rules.Normalize: internal/rules. `match` is Engine.Match with its
--   loop `match_from`; the catalogue is the list of the source.
-- - Config.Lists, Config.Rules, Config.Profiles, Config.Store: internal/config/store.go.
--   `ensure_invariants` is ensureInvariants, `ensure_rules` its part for the rules. Code that takes
--   identifiers passes along how many were taken (Ids).
-- - RuleEdit.Normalize, RuleEdit.Change, RuleEdit.Commands: the rule operations of app.go. An
--   operation ends in `failed` (its error), `panicked` (an index out of range) or `saved`.
-- - Logs: internal/logs/store.go, each operation as one step on the record of its fields.
-- - Procmatch: internal/procmatch/match.go.
-- - Net, Net.HostPort: the functions of package net that the program calls on addresses, and
--   normalizeDetectedHost of internal/tun/app_routing.go.
-- - Tun.Sni, Tun.Route, Tun.Apps: internal/tun/app_routing.go and the flattening of profiles in
--   app.go. The two loops of the ClientHello run on fuel, one more than the number of bytes left,
--   and each turn takes at least three bytes.
-- - Tun.Payload: the host of an HTTP request, of the same file, and captureInitialPayload of
--   service_windows.go. Its loop runs on fuel, one more than the limit and the number of parts in
--   which the bytes arrive: each turn adds a byte or uses up a part.
-- - Tun.Packet, with Buffer, Fields and Setters, Tun.Reflect, Tun.Table, Tun.Connect,
--   Tun.Profiles, Tun.Serve: internal/tun/service_windows.go. `parse_ipv4_tcp_packet` and the
--   setters are those of the packets, `handle_packet` is one turn of networkLoop,
--   `handle_socket_event` one turn of socketLoop, `serve_reflected_connection` the serving of one
--   accepted connection. The maps `connections` and `byRedirect` hold numbers of objects, as Go's
--   hold pointers; the entries of a map (Common.Assoc) stand in some order, that of a loop over
--   it. What the WinDivert driver does to a packet is the record Driver.
-- - Monitor, Monitor.Refresh: internal/appmonitor/service_windows.go, one refresh as one step on the
--   record of the service and the log it writes to.
-- - Netroute: internal/netroute/routes.go, with the scripts of PowerShell as a parameter.
-- - Proxy, Proxy.Course: the handlers of internal/proxy/server.go. What sockets, dialers, adapters
--   and the clock answer to a request is the record Setting; the calls are recorded as events.
-- - Text, Platform, Common, Ids: strings as lists of code points with the functions of package
--   strings, the tables and parsers of Go's standard library and uuid as the record Platform with
--   their documented laws, and shared lemmas.
-- - Tests: concrete runs, on a platform with ASCII case mapping.
--
-- Not modelled: Windows services, drivers, PowerShell, registry and files, which are pure input and
-- output; JSON; the PAC server, whose script is constant; the application service's start and stop;
-- the proxy guard; of the redirection its start, stop and status, the text of its packet filter and
-- the copying between two connections; the user interface. Calls that run at the same time are
-- sequences of steps, each of which is the part of the code under its lock. Invalid UTF-8 in
-- strings is not modelled.
pub mod Common
pub mod Text
pub mod Platform
pub mod Model
pub mod Net
pub mod Rules
pub mod Ids
pub mod Config
pub mod RuleEdit
pub mod Logs
pub mod Monitor
pub mod Netroute
pub mod Procmatch
pub mod Tun
pub mod Proxy
pub mod Tests
