-- ===== src/Lib.antt =====
-- Varmlen for Linux, the daemon that owns the tunnel (daemon/src) and the helper that lays its
-- network (helper/src). The desktop client sends it commands over a socket; it validates them,
-- moves the tunnel through its phases, keeps a file of its state for the recovery after a crash,
-- and holds the network back while the tunnel is down.
--
-- How the parts fit together. `Server` reads frames from the socket, checks the peer, decodes
-- requests by `Protocol` and hands their commands to `Controller`, which passes them on to the
-- manager of `Lifecycle` and saves the outcome by `State`. The manager works on a backend: `System`
-- is the real one. It starts and stops Xray, calls the network helper, and uses the split of
-- `Split` and the guard of `Dns`. `LogStore` keeps the log of Xray. `Recovery` runs before the
-- daemon serves.
--
-- Files and what they model:
--   Protocol, Protocol/Validate, Protocol/Frames: daemon/src/protocol.rs. A record per struct, a
--     data type per enum, one function per function; `serde_json` is the record `Serde`, whose one
--     law is that what it wrote it reads back; the parsers of URLs and of addresses are the record
--     `Parsers`.
--   Lifecycle: daemon/src/lifecycle.rs. The trait `LifecycleBackend` is a record of effects on a
--     state; `connect` is cut into its stages, from the last one back. Lifecycle/Trace records the
--     calls.
--   System/Host, System/Parts, System/Backend: daemon/src/system.rs, `SystemLifecycleBackend`. What
--     it asks of the operating system is the record `Host`; the checks of Xray documents and the
--     probe through a second Xray are the record `Documents`, which System/Trust and System/Probe
--     fill with the code's own, over the record `Machine`. System/Detail:
--     `validation_failure_detail`.
--   Document/Json, Document/Checks, Document/Ping, Document/Ports: daemon/src/system.rs, the checks
--     of Xray documents and the ports of the validation document. A `serde_json::Value` is the data
--     type `Value`, with the constructors of its documentation; the parser and the printer are
--     arguments.
--   Split, Split/Routing: daemon/src/split/mod.rs and the parser and commands of
--     daemon/src/split/routing.rs. Split/Process: the selectors of daemon/src/split/process.rs and
--     the decision of daemon/src/split/watcher.rs. Split/Subtree and Split/Reconcile: `subtree` and
--     `reconcile_with` of daemon/src/split/system.rs.
--   Helper: helper/src/main.rs. Helper/Rules and Helper/Killswitch: the kill switch and the marks
--     of the programs outside the tunnel; a rule of the chain is a constructor of `Rule`, with its
--     text. Helper/Routes: what is read from the output of `ip`, and its calls. Helper/Up and
--     Helper/Down: `route_up`, cut into its steps, and `route_down`. Helper/Pids, Helper/Sockets
--     and Helper/Pins: the processes of the excluded programs, and the pins of their open flows.
--     Helper/Args: `run` with its arguments. What it asks of the system is the record `Machine`;
--     Helper/Trace writes the calls of `ip` down. Helper/Passes says what a packet meets in the
--     chain, and Helper/Plan what calls are to be made. System/Enforced puts this helper behind the
--     daemon.
--   Dns: daemon/src/dns.rs. Identity and Recovery, Recovery/Host: daemon/src/recovery.rs.
--   Files: the calls of the file system, with the laws relied on; Files/Memory is a disk that has
--     them.
--   State: daemon/src/state.rs. LogStore: daemon/src/log_store.rs.
--   Controller: daemon/src/controller.rs. Server: daemon/src/server.rs.
--   Subscription: src-tauri/src/subscription.rs of the desktop client, the links of its four
--     protocols, the body of a subscription, and the headers of its answer. The parsers of URLs and
--     of JSON, base64 and percent encoding are the record `Codecs`, and so is the walk over a
--     subscription in JSON.
--   Base: results, effects, lists over native numbers, and text. The modules Tests and Samples run
--     the definitions at concrete inputs.
--
-- An asynchronous method is a function that returns its result beside the new state of its object:
-- the locks of the daemon let one command run at a time. What was changed before an error stays
-- changed.
--
-- Bounds. The loops are bounded in the source, and the models count the same rounds: 50 rounds of
-- waiting for Xray, 20 for its end, four deletions of a rule, three rotated logs, and the requests
-- of a connection; the probe of a candidate is tried four times, and its wait of twelve seconds,
-- asleep for 50 ms in each round, ends in 240 rounds. The walk of Split/Subtree runs on fuel, one
-- more than the process itself and all the entries of the tree, each of which goes onto its stack
-- at most once.
--
-- Not modelled: the handling of processes and cgroups by the split (the rest of
-- daemon/src/split/system.rs, cgroup.rs, bpf.rs, and the readers of process.rs and watcher.rs), the
-- relay of daemon/src/direct_dns.rs, the rendering of nft rules, the pings of daemon/src/system.rs
-- with their requests through a proxy, the pumps of its log, the pings, the watcher, the choice of
-- an interface and the calls of BPF in the helper, which are parameters there, like the warning
-- that its `bypass_up` prints, the leak check (tools/leakcheck), and the rest of the desktop client
-- (src-tauri, src): subscriptions in JSON, the generator of Xray configurations, and views and
-- glue.
pub mod Base
pub mod Protocol
pub mod Lifecycle
pub mod Split
pub mod Dns
pub mod Identity
pub mod System
pub mod Files
pub mod State
pub mod LogStore
pub mod Controller
pub mod Server
pub mod Recovery
pub mod Document
pub mod Helper
pub mod Subscription
