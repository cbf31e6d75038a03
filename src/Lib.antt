-- ===== src/Lib.antt =====
-- A model of the OLT monitoring API: an HTTP service that reads optical line terminals (OLTs) and
-- the network units behind them (ONUs) by SNMP, keeps what it read in Redis, provisions ONUs by
-- telnet, and lets operators log in and manage accounts and OLTs.
--
-- The parts, and the code that each file is about:
--
--   Strings             what is used of Go's packages strings and strconv, over bytes; Replacer is
--                       strings.NewReplacer
--   Snmp/IfIndex        internal/snmp/ifindex.go: CalculateIfIndex, ParseIfIndex
--   Snmp/Oids           internal/snmp/oids.go, and extractONUID of internal/service/onu_service.go
--   Snmp/Values         how internal/snmp/client.go and parsers.go read an SNMP variable
--   Snmp/Parsers        internal/snmp/parsers.go, and the status texts of internal/domain/onu.go
--   Snmp/Client         internal/snmp/client.go, over an agent that may answer anything
--   Snmp/Adapter        internal/snmp/adapter.go: firmware detection and power
--   Domain              internal/domain: the records that the parts exchange, results and errors
--   Config/Password     internal/config/password.go, over bcrypt
--   Config/Env          internal/config/olt_runtime.go: secrets from the environment
--   Config/Load         internal/config/config.go: what Load does with what viper read, ToOLTInstance
--   Cache               internal/cache/redis.go: a map from keys to values with a deadline
--   Service/Activity    internal/service/activity_service.go and AppendActivity, ListActivities
--   Service/Templates   internal/service/provisioning_templates.go
--   Service/Provisioning  internal/service/provisioning_service.go; Parse and NextId are its readers
--                       of what the device prints
--   Service/Manager     internal/service/olt_manager.go: the registry, and in Locks the lock of an OLT
--   Service/Onus        internal/service/onu_service.go: isOnlineLikeStatus and adaptiveTTL; Walks
--                       and Names are the loops of GetONUList, Listing is GetONUList itself, Detail
--                       GetONUDetail, Pons GetPONList; Described is what the walks mean, number by
--                       number
--   Service/Indexer     internal/service/indexer_service.go: WalkOLT, SyncAll, SetEnabled
--   Service/System      internal/service/system_service.go
--   Service/Telnet      internal/service/telnet_service.go: parseVLANProfileOutput; Session is the
--                       dialogue, with RebootONU and FetchVLANProfiles
--   Poller              internal/poller/names.go and optical.go; Slots is how the ports of an OLT
--                       share the two slots of pollOLT
--   Handler/Response    internal/handler/response.go
--   Handler/Users       internal/handler/user_handler.go
--   Handler/Auth        internal/handler/auth_handler.go; Limits holds its rate limit and its lock,
--                       and Locked what five failed logins do to the next one
--   Handler/OltRequests internal/handler/olt_handler.go: the functions that keep no state
--   Handler/Olts        internal/handler/olt_handler.go: the handlers; Persisted is what they write to
--                       the configuration file, and what loading it makes of it
--   Handler/Search      internal/handler/search_handler.go: Search and GetStats
--   Handler/Onus        internal/handler/onu_handler.go
--   Handler/Control     internal/handler/control_handler.go
--   Handler/Provisioning  internal/handler/provisioning_handler.go
--   Handler/Reports     internal/handler/system_handler.go, activity_handler.go, and the settings of
--                       search_handler.go
--   Examples            runs of the theorems at concrete inputs
--
-- A handler is a function from the decoded request and the state to the next state and a response;
-- none stands for a body that cannot be decoded. The handlers call the services as the code does:
-- Handler/Olts works on the registry of Service/Manager, the entries of Config/Load and the log of
-- Service/Activity; Service/Manager invalidates Cache; Service/Provisioning takes the OLT from
-- Service/Manager and its commands from Service/Templates; Handler/Auth and Handler/Users share
-- the accounts that Config/Load leaves. Service/Onus, Service/Indexer and Poller read the devices
-- through Snmp/Client and meet in Cache: the pollers write the lists and names that Service/Onus
-- reads, and Handler/Search reads the index that Service/Indexer writes. Handler/Control and
-- Handler/Provisioning invalidate what Service/Onus has cached.
--
-- A panic of the code is the answer none; Handler/Onus turns it into status 500, as the router
-- does. An error that a response quotes at the end of its message is left out of the message.
--
-- Numbers: an int is an exact integer, with its 64-bit wrap-around written out where a sum or a
-- shift may leave the range (Snmp/IfIndex.int_of, Snmp/Parsers.wrap). A float64 is an exact
-- fraction. An instant is a number of nanoseconds, in which 0 is Go's zero time. A Go map is an
-- association list in which the first entry counts. Go ranges over a map in any order:
-- Service/Indexer takes the order of the range as an argument; elsewhere the list is gone through
-- in its own order, which stands for one of them. Elements that sort.Slice may put in either order
-- keep theirs. Texts are bytes, and letter case and white space are those of ASCII.
--
-- Fuel: Strings/Replacer and the search for ONU numbers in Service/Provisioning/NextId run on the
-- length of the text, and every step consumes at least one byte (Strings/Replacer/Laws proves that
-- more fuel changes nothing); Strings/Decimal writes at most 20 digits, which hold every 64-bit
-- number. All other functions are structural.
--
-- Parameters, which stand for code outside the repository: bcrypt, the JWT library, gosnmp's
-- answers, Redis' matcher of patterns, the environment, the telnet connection and what the device
-- writes to it, the JSON codecs of what is cached, time.Parse, the clock, whether a lock is got
-- before the context ends, the order in which goroutines end, the order of the range over a map in
-- WalkOLT, and what viper reads back from the file that it wrote. What is assumed of bcrypt is
-- Config/Password.BcryptLaws and, in Config/Password/Check alone, the stronger assumption
-- NoCollision; of the matcher Cache.GlobLaw; of viper Handler/Olts/Persisted.ViperLaw; of the range
-- over a map that it visits each entry once. Examples has an instance of each.
--
-- Not modelled: the tickers and sleeps of the pollers and of the background sync, with their start
-- and stop; deadlines of a telnet connection; requests that singleflight joins, which get the
-- answer of the one that runs; the mounting of routes, the server and main; the mutexes that make
-- one handler's step atomic; an unreachable Redis outside Service/Activity; the cursor of SCAN in
-- deleteByPattern, whose rounds are one filter of the keys. The lock of an OLT is modelled by the
-- steps of its requests, and a removal between them by Service/Manager/Locks/Removal.
pub mod Prelude
pub mod Strings
pub mod Snmp
pub mod Domain
pub mod Config
pub mod Cache
pub mod Service
pub mod Poller
pub mod Handler
pub mod Examples
