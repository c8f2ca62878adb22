-- ===== src/Lib.antt =====
-- debuginfod.pwndbg.re: a caching debuginfod front end with its helpers.
--
-- A debugger asks the proxy (cmd/proxy) for what belongs to a build id. The finder
-- (cmd/proxy/finder.go) decides which upstream holds it: it races a probe of every upstream,
-- remembers the answer per build id behind an LRU and a store (cmd/proxy/db.go), and backs off
-- after failures. The file cache (cmd/proxy/filecache.go) then serves the file: it coalesces
-- the requests for one URL into one download, streams the growing file to all of its followers,
-- and a second loop evicts the blobs used least recently. The services behind the proxy for
-- sources (cmd/deb-debuginfod, cmd/nix-debuginfod) answer a path out of unpacked trees through
-- the index of srcindex/srcindex.go.
--
-- Which file models what:
-- - Prelude and below: numbers, lists, byte strings, association maps, ℤ over the native
--   numbers, sorting. Nothing there models the program.
-- - Proxy/Errors: the sentinel errors of cmd/proxy/finder.go and the status that
--   AccessLogMiddleware in cmd/proxy/context.go gives each.
-- - Proxy/Finder: NewDebugInfoFinder's list, GetState, UpdateState, tryAllServers,
--   bgFindByBuildID, applySourceRules, FindByBuildID. Select is about the race, Backoff and
--   Attempts about the negative backoff, Answers about whose answer is returned, Sources about
--   the rules for source files, Memory about a second lookup.
-- - Proxy/Stream: cacheEntry, download and entryReader.Read of cmd/proxy/filecache.go. `advance`
--   is one step of the leader between two calls that the world answers, `Step` interleaves it
--   with a follower. Codec is the interface of the writers between the body and the disk,
--   Invariant, Steps, Growth, Follow and Delivery carry the theorems.
-- - Proxy/Inflight: the table of downloads in fileCache.Serve, the semaphore, and what the
--   deferred function of download does to both. Single has the theorems.
-- - Proxy/Evict: isBlobName and evictOnce. Scope says which files it can touch, Order which of
--   them go and when it stops.
-- - Proxy/Headers: the headers that travel (cmd/proxy/filecache.go, cmd/proxy/main.go), strToUInt64
--   of cmd/proxy/context.go and the decimals that it reads.
-- - Proxy/Cache: the finished entries of cmd/proxy/filecache.go: cacheKey, blobPath, openCached, the
--   end of download behind a complete body, writeCachedHeaders. Keys and Hits carry the theorems.
-- - Proxy/Response: loggingResponseWriter and AccessLogMiddleware (cmd/proxy/context.go), proxyRequest
--   (cmd/proxy/main.go), Probe and Fetch (cmd/proxy/finder.go), writeBody. A handler is the list of
--   its calls on the ResponseWriter with its error. Outcome is about the middleware, Requests about
--   what it wraps.
-- - Proxy/Ranges: newIPTagSet, Lookup and ghTagsFor of cmd/proxy/ghranges.go. Longest compares
--   the lookup with a scan of the list.
-- - Proxy/ClientIp: CFIPManager, getRealIP and getCFCountry of cmd/proxy/cfip.go, with Trust about what
--   they believe.
-- - Proxy/Stats: the snapshot behind /stats, its views and the finished pages of cmd/proxy/stats.go. Pages has
--   statsCollector with its handler, Views is about which page a request gets; Series, Tails and Windows compare
--   a view that is cut from the longest collection with a collection of its own.
-- - SrcIndex: New, splitPath, Find, commonPrefixLen. Best is about the choice, Origin about
--   where an answer comes from.
-- - DebSources: cmd/deb-debuginfod with parseArchive, askDebian, resolve, indexFor, handleSource and
--   evictOnce. Evictions is about one pass; Race has requests during one, with Stale about an
--   index that outlives its tree.
-- - DebUnpack: cmd/deb-unpack, with the patterns of main.go, safeKey and filesFromDsc. Names is about what
--   can become a path. Volume has unpack, handleDelete and their interleaving, with Places, Jobs, Writes and Sound
--   below Whole, which compares the volume with a store of finished trees. Listing has handleTrees and sweepStale.
-- - NixStore: cmd/nix-debuginfod/store.go with splitStorePath, missingFor, Ensure and Open. Paths is
--   about names, Opening about mounts. Images has entry with archiveFor, buildOnce and memberIn; Links is about
--   names and links, Warm about a second request for a build id, Named about the order in which a build writes its files.
-- - NixArchive: detectCompression of nix/util.go.
-- - Releases: classifyAsset of cmd/releases/assets.go, with Classes about its vocabulary.
-- - Tests in each part: concrete inputs that the theorems are applied to.
--
-- How the code corresponds:
-- - A time is the number of nanoseconds since Go's zero time and a duration one of nanoseconds;
--   `since` stops at 0. The `uint32` counter wraps at 2 ^ 32.
-- - The probes of tryAllServers are goroutines. Their answers, in the order of arrival, and
--   whether the deadline came first are the argument `Race`.
-- - The LRU and the database behind GetState and UpdateState are the record `Stores`.
-- - The locks of filecache.go are held over one model step each: every hold of `e.mu` or `c.mu`
--   is a step of Proxy/Stream or Proxy/Inflight, and steps of different goroutines interleave
--   freely. A pointer to a cacheEntry is its number in Proxy/Inflight.
-- - The gzip writer is any `Writer` that meets `IsCodec`, with the verbatim one as an instance.
-- - In the eviction of blobs the outcome of os.Remove, the sort and the float product of the limit
--   and cacheEvictTarget are arguments; what is asked of the sort is that its result is a sorted
--   permutation or less, as each theorem states.
-- - netip.ParsePrefix is an argument of Proxy/Ranges; an address carries no zone, which Unmap and
--   Prefix drop.
-- - filepath.Clean is written on components, the last one first, as Find compares them.
-- - In DebSources/Race a step is one hold of the mutex or one answer of the unpacker; evictOnce's list
--   and its copy of the uses are one step. The walk of a tree, its size in the list and the sort are the
--   record `Setting`. In one pass of DebSources what requests do while the mutex is free is an argument.
-- - json.Marshal and json.Unmarshal are arguments of Proxy/Cache; that they give a meta back is a
--   hypothesis on the meta in question.
-- - In DebUnpack/Volume a step is one system call of an unpack, a deletion or a sweep; dpkg-source, the
--   downloads and the kernel answer each (also whether os.Stat works in handleDelete), and rename(2)
--   replaces nothing but an empty directory. A deletion of the name "/" moves its component in one step,
--   and what its RemoveAll leaves at any moment is arbitrary. A staging directory is known to its unpack alone, as MkdirTemp promises, and no unpack leaves its own
--   unchanged for staleUnpackAge: that is a premise of the step that lets time pass. The patterns and
--   strings.Fields are those of ASCII texts.
-- - In Proxy/Stats a day is a number and a map an association list; the rows of the queries, strconv.Atoi,
--   renderStats, the format of an HTTP date and the order of strings are arguments. A collection that fails is
--   `none` for refresh.
-- - In NixStore/Images the binary cache, mkfs.erofs, the directory of images and mount answer through the record
--   `ImageWorld`, and one request runs from start to end: the group that joins equal requests, the queue for a
--   slot and the writes of another request during the wait are left out. `made_from` is what an image holds:
--   the archive that mkfs.erofs was given.
-- - In NixStore the kernel is a function of the mounts; there and in NixArchive strings.ToLower is an
--   argument.
-- - Every loop is structural recursion over what it ranges over, with two exceptions that carry the
--   source's own bounds: maxResolveSteps and maxResolveHops. Digits are printed by a fuel of 20,
--   more than an int64 has.
--
-- Not modelled: HTTP transport and TLS, the ClickHouse queries and the HTML of the statistics
-- pages, the panels of /stats that count in floating-point numbers (throughput, use of the disk) and its sums
-- of bytes, the statistics of cmd/releases, mounts as system calls, processes (dpkg-source, mkfs.erofs), configuration and logging,
-- which are input and output; the start of follow in the file cache, the endpoints of the nix
-- backend around entry and Open, and the redirects of cmd/releases.
pub mod Prelude
pub mod Proxy
pub mod SrcIndex
pub mod DebSources
pub mod DebUnpack
pub mod NixArchive
pub mod NixStore
pub mod Releases
