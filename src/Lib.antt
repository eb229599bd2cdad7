-- ===== src/Lib.antt =====
-- gocharm: a framework for Juju charms written in Go.
--
-- A charm is one program. Juju starts it for each hook, and the hook's functions, which the charm's
-- components have registered, run one after the other around the load and the save of the components'
-- persistent state. A component may also keep a process running beside the hooks: that process is the
-- same program, started as a command by the operating system, and hooks call it over a socket.
--
-- Base: what every module shares. Base.Effect is a Go call on explicit state, which returns a value or
--   an error or panics; what it wrote before stays written. Base.Dict is a Go map with text keys as an
--   association list, whose order stands for the order in which Go happens to go through the map.
-- Hook: hook/. Context, Actions and Query are the methods of Context (hook/hook.go) over the hook tools
--   of hook/runner.go, which are Hook.Exec. HookName and Registry are hook/registry.go, where the state
--   that clones share is explicit (View, SharedRegistry). State is hook/state.go. Main and Environment
--   are hook/main.go.
-- Hooktest: hook/hooktest. Runner and MemState are hooktest.go: the runner answers some hook tools by
--   itself and records the others, and runs the hooks and the commands of a charm. OsServices is
--   service.go: the mock services as a state with the events sent so far, whose calls and whose
--   goroutines OsServices.Steps puts one after the other in any order.
-- Charmbits: charmbits/. SimpleRelation, HttpRelation, ElasticsearchRelation, MongodbRelation,
--   Resource and Service are the packages of those names. HttpService is charmbits/httpservice: Fields,
--   Server and Persisted are the process that serves (server.go), Charm is its charm's side
--   (service.go), and the two meet in ServerState, which Service.Call sends.
-- Cmd: cmd/gocharm. Destination is main1 of main.go, with the directory that a charm is built into
--   and its revision. Build, Setenv and Templates are gocharm.go, Program is the main function that it
--   generates for a charm, and Inspect is inspect.go with the program that it generates.
-- ExampleCharms: example-charms/. Concat is concat/runhook.go and Concat.Server is concat/http.go, which
--   Concat.Delivered puts into one world; HelloWorld and Mongodbclient are the small charms.
-- The other modules of each folder hold the theorems about the code of the module above them, and
-- Tests the runs that the theorems are applied to.
--
-- A method of a component acts on the component's own record beside the rest of the world, `W`. What
-- the code calls outside the repository is a parameter: the hook tools' processes, Juju's packages
-- (Hook.Juju), JSON and base64, files, the service daemon, net/rpc, the network, mgo, and the charm's
-- own functions. What is relied on of them is a named hypothesis (IsStore, IsFiles, IsCodec,
-- IsEncoding, IsDisk, IsNetwork, IsServed, the world of open ports of HttpRelation.Ports).
--
-- Numbers: ports and counts are natural numbers, the values of options are integers. The code computes
-- with the revision, an int of 64 bits whose wrap-around is written out, and with the lengths of paths,
-- whose slices panic out of range. All loops are over lists and are structural; the one loop that is
-- bounded by time, the dialling in Service.Call, takes the number of its further attempts as a
-- parameter, and the theorems hold for every number.
--
-- Not modelled: the reflection that checks handler functions' types, the goroutines of a process
-- that wait for its end (those of the mock services are modelled), the locks (a call of a mock
-- service runs to its end before the next one), the capacity of the channel of events, the flags
-- of cmd/gocharm and what it shows, the example charms' lists of hooks, and the lines that
-- concat's server writes to its own log.
pub mod Base
pub mod Hook
pub mod Charmbits
pub mod Hooktest
pub mod Cmd
pub mod ExampleCharms
