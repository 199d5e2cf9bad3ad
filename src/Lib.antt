-- ===== src/Lib.antt =====
-- The bcm server: rate limits, groups, and the small stores and codecs that its parts share.
--
-- A request that reaches the server passes the limiter filter (src/limiters): an executor runs a
-- checker of users and a checker of APIs, each of which charges a window of requests that is kept in
-- memory. Other parts ask limiters that count in redis, and limiters that depend on others. A
-- configuration manager reloads the rules from the database and sends its observers what changed.
-- Messages go to groups. The server keeps which connected users are in which group and subscribes the
-- channels of those groups (src/group); the offline server keeps all members, subscribers and those
-- who muted a group, and falls back on the database when it does not know a user
-- (src/program/offline-server). Users are addressed by user and device (src/dispatcher). Features of
-- clients and contact filters are bitmaps (src/features, src/bloom), answers of the database are kept in
-- a cache (src/dao/dao_cache), and numbers and bytes are written as text (src/crypto). Requests find
-- their handler by the routes of src/http, messages their connection by the dispatch manager of
-- src/dispatcher, users their partition of redis and groups their server by a ring (src/redis, src/group, src/utils); what is pushed to a phone is sent
-- again until its user is online (src/push).
--
-- Files and the code that they are about:
--   Base, Base/*            lists, maps and sets in key order, texts as lists of bytes, integers, decimal
--                           numbers, the bits of a byte
--   Limiter                 limiter.h, checker.h, dao/limiter_configurations.h: shared types; `charge` is the
--                           block of acquireAccess under the mutex of a user
--   Limiter/UserQps         user_qps_limiter.cpp: acquireAccess, limited, currentState, update
--   Limiter/Window          requests of a user within one window
--   Limiter/Configuration   configuration_manager.cpp: reload, notify, getConfiguration
--   Limiter/Follow          the manager and a user limiter that observes it
--   Limiter/ApiMatcher      api_matcher.cpp: match, matchAndFetch; the relation that they decide
--   Limiter/ApiQps          api_qps_limiter.cpp: the same operations, for APIs
--   Limiter/ApiFollow       updates of the rules of the APIs
--   Limiter/Distributed     distributed_limiter.cpp: acquireAccess with incr, limited, update
--   Limiter/Slots           requests and queries within one slot of time
--   Limiter/Counted         how many requests of a slot get through
--   Limiter/Dependency      dependency_limiter.cpp, over the interface ILimiter as a record of operations
--   Limiter/Queries         answers of currentState and getConfiguration
--   Limiter/Executor        uid_checker.cpp, api_checker.cpp, limiter_executor.cpp: validate
--   Limiter/Verdict         histories of requests at the executor
--   Group/Sets              the sets of members of a group in a std::map
--   Group/Offline           offline_member_mgr.cpp, group_member_mgr.cpp: every handler and query
--   Group/OfflineInv        their invariant, and reloads
--   Group/OfflineEvents     the handlers as one step, and the invariant
--   Group/OfflineQueries    what queries and events answer and change
--   Group/Online            member_mgr_base.cpp, online_msg_member_mgr.cpp: users come, go, enter, leave
--   Group/Subscribed        the channels that are subscribed for them
--   Group/Servers           im_server_mgr.cpp: which server handles which group
--   Group/ServersKnown      its list of servers and its ring after any answers of redis
--   Group/ServersAgree      two servers that have read the same list
--   Group/Noise             online_msg_member_mgr.cpp: getOnlineUsers
--   Group/NoiseEnds         the rounds of a search that starts at the first user
--   Group/NoiseChoice       the users that a search chooses
--   Group/Partition         group_partition_mgr.h: the last message of each group
--   Dispatch/Address        dispatch_address.cpp: the text of an address
--   Dispatch/Channel        dispatch_channel.cpp: the callbacks of a channel
--   Dispatch/Manager        dispatch_manager.cpp: every operation of the manager
--   Dispatch/Events         its calls, the callbacks of redis and the worker as one step
--   Dispatch/Presence, Dispatch/PresenceSteps, Dispatch/PresenceRun
--                           the table, the listeners and redis
--   Dispatch/PresenceParts  parts of calls for other addresses
--   Dispatch/Race           a call of unsubscribe that one of subscribe interrupts
--   Dispatch/Replace        a connection in the place of another
--   Dispatch/Order, Dispatch/OrderSteps, Dispatch/OrderOthers, Dispatch/OrderParts,
--   Dispatch/OrderWork, Dispatch/OrderRun
--                           group messages on their way to a channel
--   Bitmaps/Bytes           a bit of a vector of bytes
--   Bitmaps/Features        base_features.cpp
--   Bitmaps/Bloom           bloom_filters.cpp, for any hash algorithm
--   Bitmaps/BloomContent    filters that are made from the contents of others
--   Cache/Fifo              fifo_cache.h: set and get
--   Cache/FifoInv           the invariant of the cache, and the loop that makes room
--   Cache/FifoSet           set in a sound cache
--   Codec/AnyBase           any_base.cpp
--   Codec/Hex               hex_encoder.cpp
--   Codec/Url               url_encoder.cpp
--   Codec/UrlFree           bytes that an encoded text has not
--   Http/Route              http_route.cpp: segments and match
--   Http/RouteFill          a path that is made from a route
--   Http/Query, Http/QueryRound
--                           http_router.cpp: parseUri
--   Http/Router, Http/RouterMatch
--                           http_router.cpp: the routes, filters and observers, and match
--   Utils/Fnv, Utils/Ring   consistent_hash.h
--   Utils/RingMoves         what moves when servers come and go
--   Redis/Partition         online_redis_manager.cpp: RedisPartition
--   Redis/PartitionInv      its connections under any events
--   Redis/Online            online_redis_manager.cpp: OnlineRedisManager
--   Redis/Publish           dispatch_manager.cpp: publish, which waits for redis
--   Redis/Manager           redis_manager.cpp: the servers of the partitions, and the loop of a command
--   Redis/Commands          its commands, and the way back to earlier servers
--   Redis/Failover          at which server a command ends
--   Redis/Placement, Redis/ManagerBack, Redis/ManagerInv
--                           the current servers stay inside their partitions
--   Push/Qos                apns_qos_mgr.cpp: QosMgrImpl and ResendTask, an event at a time
--   Push/QosChannel         what holds of one channel
--   Push/QosInv             the invariant of the tasks
--   Push/QosBound           how often a notification is sent again
--   Push/QosDangles         a check of a task that is gone
--   Push/QosFault           its reply
--   */Tests, */*Tests       the theorems on concrete data
--
-- State is a record and an operation takes it and returns it with its answer. A lock around an operation
-- makes it one step; handlers of groups run to their end before the next, so interleavings between
-- two locks of one handler are not modelled there. The calls of the dispatch manager that have a lock for a
-- part only are events as a whole and in parts, and a statement says which parts it lets in. Clock readings, answers of the database and replies of redis are
-- arguments, so that a theorem holds for all of them. Code that is not the repository's own is an
-- argument too: boost::split, the names of HTTP verbs, the parsers of messages, and the test of a protocol
-- flag. Log lines and metrics are left out. Counters and times are numbers without a bound where the code has
-- 64 bits: a window would have to count 2^63 requests to tell the difference. Bytes, 32 bit devices, sizes
-- and periods, the wrap of decoded numbers and conversions to signed numbers are written out.
--
-- Loops are recursion on lists, but for two. The loop of AnyBase::encode is given fuel for 64 rounds:
-- enough, since every round halves the number at least. The loop of getOnlineUsers runs on fuel that
-- is an argument. The loop of FIFOCache::set runs over the keys of its queue, and that of a
-- command of RedisDbManager has one round for each server of the partition, as in the source.
--
-- Not modelled: the controllers, the stores, the remote calls of the database and redis, the sessions and
-- push clients (I/O around other parts), the crypto wrappers, and the registries of limiters. Of a dispatch
-- channel, what it sends is not modelled, and of a route, what its handler is given and answers.
pub mod Base
pub mod Limiter
pub mod Group
pub mod Dispatch
pub mod Bitmaps
pub mod Cache
pub mod Codec
pub mod Push
pub mod Http
pub mod Utils
pub mod Redis
