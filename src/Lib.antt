-- ===== src/Lib.antt =====
-- Redis-Clone-JS: the data store and its commands.
--
-- The program (src/core/DataStore.js) keeps a map from keys to entries and a map from keys to
-- deadlines. A command arrives as a name and a list of strings, `dispatch` picks its handler, and the
-- handler changes the maps and returns the text of the reply, which src/core/protocol.js encodes.
-- Entries whose deadline is due are removed when a command meets them, and by a timer.
--
-- The server (src/server/Server.js) gives each connection a parser (src/core/protocol.js) that finds
-- commands in the bytes of its socket. A command passes the login, the commands of the connection
-- itself and of its transaction, the guard of a replica and the access control list (src/server/acl.js);
-- its keys get the prefix of the database, and `dispatch` runs it. A write that succeeds goes to the
-- append-only file (src/server/aof.js), which is replayed at the start, and to the backlog for the
-- replicas.
--
-- Parts and files
--   Prelude, Map, SetOf   shared names, and JavaScript's strings, Map and Set: strings are lists of
--                         UTF-16 code units, a Map keeps its insertion order
--   Number                parseInt, String(n), and what the handlers take from doubles
--   Protocol              src/core/protocol.js: the encoders of replies
--   Acl                   src/server/acl.js: the users, the rules of ACL SETUSER, passwords
--   Acl.Check             src/server/acl.js: check, globMatch, the lists of users
--   Parser                src/core/protocol.js: CommandParser; a buffer is a list of bytes, and the
--                         offset of `_parseNext` is the buffer from there on. Parser.Encoded has what
--                         is assumed of UTF-8, Parser.Reads the messages of a buffer without fuel
--   Server.Databases      src/server/Server.js: the prefixes of the databases, in Server.Tables the
--                         commands whose keys get them
--   Server.Keys           src/server/Server.js: `_extractKeysForAcl`
--   Server.Backlog        src/server/Server.js: the replication backlog and PSYNC
--   Server.Session        src/server/Server.js: a connection, the server, the normal execution
--   Server.Handler        src/server/Server.js: the commands of the connection, transactions included
--   Server.Step           src/server/Server.js: the order of the branches, and rows of messages
--   Aof                   src/server/aof.js: the append-only file and its replay
--   Cmd                   handlers: functions from a store to an outcome and a store. An outcome is a
--                         result, an exception (what was written before it stays), or `unmodelled`
--   Store                 the two maps, `_getEntry`, `_purgeIfExpired`, the timer's pass, and the
--                         helpers `_ensure…Entry` and `_getOrInit…`
--   Store/View            what a client can see of a store at a time
--   Keyspace, Ttl         SET, GET, DEL, EXISTS, KEYS, FLUSHDB, TYPE, DBSIZE, RENAME, and deadlines
--   Strings, Lists, Hashes, Sets, ZSets   the commands of the five types
--   Dispatch              `dispatch`: tables of handlers by the name of the command
--   Tests                 concrete inputs
-- Each handler `_name` of the source is `name` here; a Consistent file beside a component has the
-- lemmas on its handlers for the store's invariant.
--
-- How the model reads the source
--   - An entry's type and value are apart, as in the source, since some commands write a value of
--     another kind under an old type. A handler that meets such an entry through `_ensure…Entry`
--     ends as `unmodelled`; so do the commands that have no handler here (Dispatch/Unmodelled).
--   - One reading of the clock, `now`, serves a whole command or a whole pass of the timer.
--   - Numbers are exact integers; JavaScript's doubles agree below 2 ^ 53, and a text of digits too
--     long for a double is no Infinity here. INCR and its kin take
--     doubles as a parameter (Number.Doubles), scores are a parameter too (Number.Floats), and so are
--     regular expressions (Dispatch.Engine). What is assumed of them is IsExact and IsOrdered.
--   - Upper case is that of ASCII. The arguments of a handler are strings: the server puts the empty
--     text for a null.
--   - The callback of expired keys is a list of keys in the store.
--
-- Fuel: the binary search of `_zsetInsert` gets the length of the array, and each round makes the
-- interval shorter; the digits of n get n + 1, and each division makes n smaller; the parser gets one
-- more than the length of its buffer, for the depth of nested arrays and for the messages, since each
-- takes a byte at least; globMatch gets more passes than its loop can take. All other loops follow the
-- structure of a list.
--
-- Not modelled: the types beyond the five (streams, JSON, vectors, geo, time series, HyperLogLog,
-- cuckoo filters, document indexes), the bit commands, the scans, the random choices and
-- ZRANGEBYSCORE; of the server: publish and subscribe, notifications, client tracking, the blocking
-- pops, the side of a replica, snapshots, the slow log, sockets, files and metrics; and src/client,
-- which is input and output for the most part.
pub mod Prelude
pub mod Map
pub mod SetOf
pub mod Number
pub mod Protocol
pub mod Parser
pub mod Cmd
pub mod Store
pub mod Keyspace
pub mod Ttl
pub mod Strings
pub mod Lists
pub mod Hashes
pub mod Sets
pub mod ZSets
pub mod Dispatch
pub mod Acl
pub mod Server
pub mod Aof
pub mod Tests
