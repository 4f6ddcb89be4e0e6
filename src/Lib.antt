-- ===== src/Lib.antt =====
-- s3-cache: a caching HTTP proxy in front of one S3 bucket. A GET of a key is answered in aligned
-- chunks, each from a disk cache or from one upstream fetch that all requests for the chunk share.
--
-- The parts, in the order in which a request meets them, and the files that model them:
--   Web/Range      services/web.go, parseRange: the Range header. Web/Range/Forms gives the three
--                  forms of a range as values, printed and parsed.
--   Web/Handle     services/web.go, parseKey and Web.handle; Answers follows a request through it.
--   Http           net/http's ResponseWriter as far as the program uses it, and services/web.go,
--                  httpErrorFromS3.
--   HeadCache      services/head_cache.go, and Fetcher.headObject of services/fetcher.go, which reads
--                  through it. Bounded and Reads are its theorems.
--   Fetcher/Get    services/fetcher.go, Fetcher.Get and Fetcher.Head. Get/Ranges follows a range
--                  request through the whole of Get, Get/Whole one without a range.
--   Fetcher/Resolve  the span that Get serves, from the values of the header and the object's size;
--                  Agrees compares it with the part of the object that the form stands for.
--   Fetcher/Serve  Fetcher.serveAligned, from the side of the consumer that writes the response, and
--                  writeChunk of services/write_guard.go. Plan is the arithmetic of the chunks,
--                  Pieces one turn of the loop, Body the loop, Response and Complete the response.
--   Fetcher/Fetch  Fetcher.lead, download and openRange, and the free function of a flight. Content is
--                  about what was read, Publish what a fetch leaves, Deliver how that reaches the
--                  consumer of serveAligned, Cached and Cached/Sound what it leaves on
--                  disk, Cached/Delivered what a caller finds there.
--   Fetcher/Lookup  Fetcher.fetchChunk: Starts is about what a caller finds on disk or waits for, Waits
--                  about callers who leave.
--   Fetcher/Dispatch  the goroutine of serveAligned that starts the fetches; Order is about the order
--                  in which chunks are admitted, Ends about the number of steps.
--   Fetcher/Pipeline  Fetcher.serveAligned as one system of the dispatcher, the goroutines that fetch,
--                  the channels between them and the consumer, and cleanupPending of
--                  services/chunk.go. Account and Books follow the result of each chunk, Closes says
--                  what is closed, Ends is about the number of steps; Turns, Known and Views follow
--                  the consumer step by step, and Refines compares the system with the consumer
--                  alone; Held and Guarded are about the write guard.
--   Fetcher/Node   all requests and fetches of a node over one buffer budget: services/fetcher.go with
--                  services/budget.go. Invariant is what holds between two steps, Progress about
--                  requests that wait for budget, Drains about the end of the work.
--   Cache/Shards   services/cache.go, getDir, listShards and distributeByHash; Even is about the
--                  intervals of the hash space.
--   Cache/Names    services/cache.go, CacheRoots, root and path, and the key of a flight; Distinct is
--                  about names that differ.
--   Cache/Files    services/cache.go, the files on disk, the version markers, and writing a file.
--   Cache/Access   services/cache.go, DiskCache.Get and Put. Disks and Kept are about single writes,
--                  Versions about a get after a put, Contents about what lies on disk, Hits about what
--                  a get finds, History about the disk over any sequence of calls, crashes and evictions.
--   Readahead      services/readahead.go; Keys is about itoa, Spans about Kick, Running about the
--                  fetches that run at one time, Discard is what a fetch does with its result.
--   Config         NewDiskCache of services/cache.go, NewFetcher of services/fetcher.go, NewEvictor and
--                  runOnce of services/eviction.go; Accepted is about the settings, Markers about
--                  the markers at startup.
--   Wiring         configure.go, run; Flags are the Register functions of services/ with the defaults of
--                  the flags, Closing is about what is served and closed, Defaults about a program
--                  that is started with its defaults.
--   Chunk          services/chunk.go, chunkResult; Slice is about writeSlice.
--   Flight         services/chunk.go, chunkFlight; Claim is about the claim of a flight.
--   Singleflight   services/singleflight.go; Calls is its life over any interleaving, Sharing what
--                  that comes to.
--   Budget         services/budget.go; Runs is the budget over any interleaving, Invariant what holds
--                  of it.
--   WriteGuard     services/write_guard.go; Trace is the guard over the life of a request.
--   Eviction       services/eviction.go, Evictor.sweepShard; Scan is about the walk, Order about
--                  the sort, Sweep about the loop that removes files, Swept about all of it. Tidy is removeIfEmpty, Tidy/Kept about what it leaves.
--   Prelude        int64 and int32 with their wrap-around, texts, paths, association lists, results.
--   Tests          the theorems at concrete inputs; Fixture has a cache for them.
--
-- State and operations. A struct is a record of the same name, a method a function of the same
-- name that takes and returns it; what a call returns besides is the rest of a tuple or of a
-- record. The code under a mutex is one step, so an interleaving of callers is a sequence of
-- steps: a `Run` is such a sequence, with the steps that the callers may take as its
-- constructors. The publication of a call by finish is one step, though the code fills in the
-- result just after it unlocks; no caller looks at the result before that. A fetch, from its unit
-- of budget to its end, is one function. A text is the list of its bytes; the content of a file
-- is the list of its bytes too.
--
-- Bounds. int is 64 bits wide; int64, int and int32 wrap around, and the theorems say how large
-- an object, a chunk or a count may be. ParseInt and FormatInt are given for base 10; the digits
-- of a number are produced in 20 rounds, which is enough for 64 bits. Times are readings of a
-- clock; the difference of two of them is taken to fit an int64.
--
-- Arguments stand for what the code meets: the answer of the object store to HEAD, the order in
-- which Go walks over a map, sort.Slice, of which it is a hypothesis that it sorts by a strict
-- order, which files os.Remove can remove, how many bytes the client takes, whether a flush
-- succeeds, and the text of a time. What serveAligned's fetches deliver is an argument too: that a
-- chunk which arrives without an error holds the object's bytes is a hypothesis of the theorems
-- about the response, and Fetcher/Fetch/Cached/Delivered is about fetches that meet it. What
-- os.Open finds for a flight is an argument of claim, and in Fetcher/Fetch/Cached it is what lies
-- on disk. For a fetch the store's answer to a range request is an argument, with the hypothesis
-- that a body is a prefix of the range, and so are whether the deadline passed and, but in
-- Fetcher/Fetch/Cached, the outcome of DiskCache.Put. For the disk cache they are the hexadecimal
-- SHA-1 of a text, what os.ReadDir lists, which system calls fail, in the write of the marker and
-- in that of the chunk, and how far a write gets, the name that os.CreateTemp finds, and the text
-- of a time with its reading; that a digest has 40 hexadecimal digits, that the digests of the
-- chunks in use do not collide, and that a temporary name has no slash are hypotheses.
-- filepath.Clean, Join and path.Split are given, and sort.Strings as an insertion sort. A file is
-- its bytes and its time, and a rename is one step; a call of Get or Put is one step, but for a
-- crash inside a write.
--
-- In Fetcher/Pipeline a fetch goroutine counts a buffer and hands its result over in one step. In
-- Fetcher/Node a request is its dispatcher with the fetch that each of its chunks waits for, a fetch is
-- a stage (waiting for budget, downloading, published in one of three ways) and the budget is the
-- number of taken units; a request that has ended is followed no further, and what it held is free.
-- Whether a client takes what is written, and whether the store answers a download, is a step there,
-- not a hypothesis.
--
-- Not modelled: services/metrics.go and all logging, which nothing in the program reads; the ticker in
-- services/eviction.go; the listener of services/web.go; main.go, and the HTTP transport and the common
-- services in configure.go, which are settings and calls of libraries.
pub mod Prelude
pub mod Chunk
pub mod Eviction
pub mod Flight
pub mod Singleflight
pub mod Budget
pub mod Cache
pub mod HeadCache
pub mod Http
pub mod WriteGuard
pub mod Readahead
pub mod Config
pub mod Wiring
pub mod Web
pub mod Fetcher
mod Tests
