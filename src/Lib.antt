-- ===== src/Lib.antt =====
-- The small frameworks of the 7days-golang repository, each in the version of its last day: the web
-- framework (gee-web), the distributed cache (gee-cache), the RPC framework (gee-rpc), the
-- key-value store (gee-bolt) and the ORM (gee-orm). The parts do not import each other across
-- projects; inside a project the router uses the tree, a context runs the handlers that the router
-- chose, and the discovery of the RPC client reads the header that its registry writes.
--
-- Base: lists, byte strings, 64-bit words, Go maps as association lists, sort.Search, sort.Ints,
--   sort.Strings and bytes.Compare, and Base/Outcome, what a piece of code does when it runs: it
--   returns, it panics, or it spends the rounds of a loop.
-- GeeCache/Lru: gee-cache/day7-proto-buf/geecache/lru/lru.go. Cache is the struct, with the
--   list of elements and the map from keys to their addresses; `add` is Add, whose loop is `evict`
--   and whose first half is `store`, `get` is Get, `remove_oldest` is RemoveOldest. The size of a
--   value is a parameter. The byte counts are 64-bit patterns and wrap as int64 does.
-- GeeCache/Group: geecache.go, cache.go, byteview.go and peers.go beside the lru: `get_view` is Get of
--   a group, with load, getLocally and getFromPeer below it, and `add` and `get` are those of the
--   cache, which uses the lru. The getter and the peers are parameters.
-- GeeCache/SingleFlight: singleflight/singleflight.go beside it: the parts of Do between which other
--   goroutines may run are the steps of a relation, the end of fn by a panic included.
-- GeeCache/Pool: http.go beside it: `request_path` is the path of the URL that Get asks for,
--   `serve_http` what ServeHTTP answers, `set` and `pick_peer` use the ring. What net/url and net/http
--   do to the bytes of a path is written out.
-- GeeCache/ConsistentHash: consistenthash.go beside it. The ring with `add` and `get`; the hash of
--   a byte string is a parameter.
-- GeeBolt/Node: gee-bolt/day3-tree/node.go: index, put and del of a node.
-- GeeWeb/Trie, GeeWeb/Router: trie.go and router.go of gee-web/day7-panic-recover/gee. A handler is
--   a value of any type with a nil, since the router only stores and chooses it.
-- GeeWeb/Context: context.go and recovery.go beside them: Next, Fail and Recovery over a chain of
--   handlers. A handler is a list of commands, so that what it does before and after c.Next() can
--   be told apart.
-- GeeWeb/Engine: gee.go beside them: the groups of routes, each at its place in the list of the engine,
--   and ServeHTTP, which puts the middlewares of a request in front of the handler that the router
--   chooses.
-- GeeRpc/Registry: gee-rpc/day7-registry/registry/registry.go: putServer, aliveServers and
--   ServeHTTP, with the time of each request as a parameter.
-- GeeRpc/Discovery: xclient/discovery.go and xclient/discovery_gee.go of gee-rpc/day7-registry. The
--   random numbers, the clock and the answer of the registry are parameters.
-- GeeRpc/Client: client.go beside them: the table of pending calls. The parts of send, receive, Call
--   and Close between which other goroutines may run are the events of `step`; a run is a list of
--   events, the latest first, and it exists if each event had its turn.
-- GeeRpc/Dial: the first and last parts of client.go: parseOptions, NewClient, NewHTTPClient,
--   dialTimeout, Dial, DialHTTP and XDial, with what the network, the encoder and the clock do as parameters.
-- GeeRpc/Service, GeeRpc/Server: service.go and server.go beside it. A method is described by what
--   reflection tells of it; a connection is the list of the values on it. `serve_codec` is serveCodec,
--   which takes requests until one cannot be read,
--   and gives what its loop does, not the order of the answers; GeeRpc/Server/Handling has the two goroutines of
--   handleRequest as a step relation.
-- GeeRpc/XClient: xclient/xclient.go: the kept clients, Call and Broadcast, with the end of each call as
--   a parameter.
-- GeeOrm/Clause: clause.go and generator.go of gee-orm/day7-migrate/clause: the generators, Set and
--   Build. The arguments of Set have the types that the sessions pass.
-- GeeOrm/Schema, GeeOrm/Session, GeeOrm/Engine: schema/schema.go, dialect/sqlite3.go, session/raw.go,
--   table.go and transaction.go, and geeorm.go beside clause. A struct is the list of its fields; the
--   database is a state with the operations of database/sql, a parameter; what a session does changes
--   the session and that state, and returns or panics.
--
-- Rounds: the loop of Add is given rounds, and more rounds than the list has elements, and one, are
-- enough where the limit is not negative; Next is given rounds, and more than there are handlers are
-- enough. A run that has no rounds left is a result of its own. serveCodec is given one round more than there are values on the connection. The binary search is given the width
-- of its interval, and the printing of a number one round more than the number. All other loops recurse on their
-- data.
--
-- Not modelled: the network, templates, gob and protobuf encodings, reflection, mmap, logging and
-- the mutexes of code that holds one lock for the whole of an operation (such an operation is one
-- step here). The Go maps are iterated in one order; where the code sorts afterwards, as the
-- registry does, the order does not show. Times are instants and durations that do not overflow.
-- The map of the groups of a process, Accept and the hijacking of HTTP connections, and the records
-- and hooks of the ORM are left out.
pub mod Base
pub mod GeeCache
pub mod GeeBolt
pub mod GeeWeb
pub mod GeeRpc
pub mod GeeOrm
