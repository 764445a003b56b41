-- ===== src/Lib.antt =====
-- A verification library for parts of the Go programs of this repository, an implementation of the AT
-- protocol: the repository of signed records and its blobs (internal/repo), the transactor that turns
-- the writes of a client into a commit (internal/actorstore), the blockstore in memory
-- (internal/blockstore), the bus of events (pubsub), the middleware that admits requests
-- (internal/auth) with the errors it writes (xrpc), jobs in parallel (internal/parallel), and the collections and iterators under them (queue,
-- array, internal/xiter).
--
-- Parts and files, with paths from the repository's root:
--   Prelude       Go's conditions, comparable types, maps, errors, signed integers and strings. A
--                 string is a String where the code only compares it, and its bytes (Prelude.Text)
--                 where the code takes it apart.
--   Repo.BlockMap, Repo.CidSet   internal/repo/block_map.go and cid_set.go. A Go map is a list of
--                 pairs with each key once; the order of `range` is the order of that list, which stands
--                 for any order.
--   Repo.Write    internal/repo/ops.go: the operations that a client asks for, PrepWrite,
--                 PrepareWrite, and the setters, getters and DeriveCID of PreparedWrite.
--   Repo.Commit   internal/repo/ops.go: SignCommit and SignCommitWithSigner.
--   Repo.Repository   internal/repo/repo.go: New, Load, the records, ApplyWrites, Commit, DiffSince.
--   Repo.Diff     internal/repo/repo.go: dataDiff and diffFrom.
--   Repo.Format   internal/repo/format.go: FormatCommit and FormatInitCommit.
--   Repo.Codec, Repo.Outside   what those parts call: encodings, hashes, the merkle search tree of
--                 github.com/bluesky-social/indigo, the storage and the clock of revisions. These are
--                 records of operations, parameters of the definitions that use them.
--   Repo.Blobs    internal/repo/blobstore.go, over a parameter for package os and filepath.Join. As Join
--                 cleans paths, a theorem names each two paths that it needs to differ.
--   Repo.Sample   one concrete instance of them, for the tests.
--   Actorstore    internal/actorstore/repo_transactor.go: FormatCommit, over Repo.Repository,
--                 Repo.Format and the stores of an actor, which are a parameter. Its children have the
--                 checks of swap CIDs, the blocks of the new records, and the table of the query.
--                 Actorstore.Reader is GetBlocks of internal/actorstore/repo.go, with its cache.
--   Auth          internal/auth/middleware.go: the header of a request and the two kinds of
--                 credentials. Auth.Keys has the key of a service from the document of its DID,
--                 Auth.Middleware the four handlers that guard a request, and ExtractToken. The
--                 libraries of tokens, of base64 and of DID documents are parameters.
--   Xrpc          xrpc/error.go: codes, statuses and the answer that is written for an error.
--   Parallel      internal/parallel: a step relation whose steps are the end of the context, the end of
--                 a job, a send that is given up, a send with its receive, the close of the channel, and
--                 the caller's other steps. Parallel.First and Parallel.Do give the caller's loop;
--                 Parallel.Runs has what every step keeps, and Parallel.Progress how a run ends.
--                 Parallel.MapJobs has Map with steps of its own: its workers write their results to
--                 a shared slice and send errors only.
--   Pubsub        pubsub/channels.go: the queues of the bus by number, with the indexes that they keep.
--   Blockstore    internal/blockstore/inmemory.go.
--   Queue         queue/queue.go: Queue, with the list that it holds in Queue.Stack.
--   Queue.Ring, Queue.Ring.Places   queue/list.go: the ring of elements as a store of fields by
--                 address. Queue.Ring.Shape has the links of a ring, Laws and Sequences what insertion
--                 and removal do to the sequence of its elements, Iteration the loop of RevIter.
--                 Queue.ListQueue is the queue of queue/queue.go over a ring.
--   Array         array/array.go and search.go: slices as lists of their elements.
--   Xiter         internal/xiter/xiter.go: push iterators that pass on the state of their `yield`.
--
-- A method that changes its receiver and may fail is a function from the state to a result and a
-- state (Prelude.Exec), so that what was written before an error stays written; a panic is a result of
-- its own. A repository's state is its fields with the world of the storage. Methods that hold a lock
-- for their whole body are one step. Loops run over lists, by structural recursion; the loops of
-- queue/list.go run as often as the length field that they read first, so that no fuel is chosen
-- anywhere. The loops of internal/parallel are not run but related: any order of the steps is a run, and
-- that a run may go on to a return is a theorem of its own.
--
-- Not modelled: SQL stores but for GetBlocks, the other HTTP handlers and clients, the generator of
-- lexicon types, generated CBOR, logging, and contexts where they only pass through; the creation of
-- tokens. Errors keep their identity, not their text, where the code wraps them.
pub mod Prelude
pub mod Repo
pub mod Blockstore
pub mod Parallel
pub mod Xrpc
pub mod Auth
pub mod Actorstore
pub mod Pubsub
pub mod Queue
pub mod Array
pub mod Xiter
