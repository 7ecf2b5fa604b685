-- ===== src/Lib.antt =====
-- go-nfs is an NFSv3 server in Go that serves a billy file system through a user's Handler. Its
-- own core, and what this library is about, is the durability of writes: a WRITE may be unstable,
-- the open file that took it is kept in a cache of its connection, and a COMMIT, on whatever
-- connection, has to flush it or report that it was lost.
--
-- The parts and the files that model them:
--
-- - errors.go, nfsinterface.go: the errors of a procedure, their status and their bytes.
--   Errors.antt, with the enumerations in Errors/Codes.antt and Go's error values in
--   Errors/Chain.antt.
-- - committracker.go: the flushes in flight and the lost writes, of the whole mount. Tracker.antt:
--   begin, finish (its critical section is `settle`), record, wait, await and resolve.
-- - handlecache.go: cachedHandle in Handle.antt, writeCache in WriteCache.antt;
--   WriteCache/Calls.antt puts the operations of the cache together as one state machine.
-- - readcache.go: readHandle and readCache in ReadCache.antt.
-- - conn.go: the two caches of a connection, with dropHandle, flushHandle, flushDirtyHandle and
--   drainCaches, in Conn.antt. The loop of serve, readRequestHeader, handle and err, the response
--   with its writeHeader, Write and drain, and the fragments of serializeWrites, in Rpc.antt.
-- - server.go: the write verifier in Verifier.antt; the registry of connections, the broadcasts
--   dropHandleAll, flushHandleAll and flushDirtyHandleAll, and dropAndRetry, in Server.antt;
--   RegisterMessageHandler and handlerFor in Rpc.antt.
-- - nfs_oncommit.go, nfs_onwrite.go, nfs_onread.go and nfs_onremove.go: the procedures onCommit,
--   onWrite, onRead and onRemove in Handlers/Commit.antt, Handlers/Write.antt, Handlers/Read.antt
--   and Handlers/Remove.antt, in the monad of Action.antt; onGetAttr and onAccess in
--   Handlers/Query.antt.
-- - nfs_onrename.go, nfs_oncreate.go and nfs_onsetattr.go: onRename, onCreate and onSetAttr in
--   Handlers/Rename.antt, Handlers/Create.antt and Handlers/SetAttr.antt.
-- - nfs_onmkdir.go, nfs_onmknod.go, nfs_onsymlink.go and nfs_onlink.go: onMkdir, onMknod, onSymlink
--   and onLink in Handlers/Make/Mkdir.antt, Handlers/Make/Mknod.antt and
--   Handlers/Make/Symlink.antt, with what they share in Handlers/Make.antt.
-- - nfs_onlookup.go: onLookup in Handlers/Lookup.antt. nfs_onreadlink.go, nfs_onfsstat.go,
--   nfs_onfsinfo.go and nfs_onpathconf.go: onReadLink, onFSStat, onFSInfo and onPathConf in
--   Handlers/Info.antt.
-- - mount.go and nfs.go: the mount protocol, and which handler is registered under which number, in
--   Mount.antt, with the handlers of NFS as the record NfsHandlers.
-- - file.go and time.go: the attributes of a file, their bytes and their changes in
--   Attributes.antt, with SetFileAttributes in Attributes/Sattr.antt and Apply in
--   Attributes/Apply.antt; Times.antt has the times. Changes.antt is what they use of billy, and
--   Xdr.antt the package xdr.
-- - nfs_onreaddir.go and nfs_onreaddirplus.go: a page of a listing in Listing.antt, a client that
--   lists page by page in Listing/Client.antt, onReadDir in Handlers/ReadDir.antt and onReadDirPlus
--   in Handlers/ReadDirPlus.antt.
-- - helpers/memfs/storage.go: the bytes of a file of the file system in memory, in
--   Memfs/Content.antt.
-- - helpers/cachinghandler.go: the handles of CachingHandler in Caching.antt, over an LRU.
-- - Memory.antt is the state that goroutines share: the file system, the handles behind their
--   pointers, the tracker and the verifier. Base.antt and Words.antt are helpers. Tests.antt and
--   the files below it run the definitions at concrete values.
--
-- How the code corresponds to the definitions. A pointer to a handle is a number, and what it
-- points to is in a table of the memory. A file handle of the protocol is a number that stands for
-- its bytes. A Go map is an association list in the order of one iteration over it. A function
-- returns the state that it leaves; an error is an Option or a Result. A critical section is one
-- function; what other goroutines do between two critical sections is a function argument,
-- `others` or `racing`, of which nothing is assumed unless a theorem says it, or an explicit
-- schedule. A broadcast over the connections is one such step: what other goroutines do between
-- its visits of two connections is not represented. A call that blocks is `none` where the
-- schedule given does not let it return. Counters keep their wrap-around at 2^64, and counts
-- theirs at 2^32.
--
-- Parameters. The record Backend of Backend.antt is the file system, os and crypto/rand as the
-- code uses them, and HidesSentinel there is what is assumed of it for COMMIT; KeepsFlushed of
-- Server/FlushDirty.antt is what is assumed of the other goroutines for READ; UserHandler of
-- Action.antt is the user's Handler, of which FromHandle is taken as a read that changes nothing;
-- Lru of Caching.antt is the package golang-lru, with what it documents in LruLaws. The record Xdr
-- of Xdr.antt is the package xdr of go-nfs-client, with the law ReadsBack, and RpcLib of Rpc.antt
-- its package rpc; Files, Changer, Names and UnixChanger of Changes.antt are further methods of
-- go-billy, which IsDocumented of Attributes/Apply/Documented.antt describes; Lister of
-- Handlers/ReadDir.antt is the part of a Handler that READDIR uses, and SHA-256. The client of
-- Listing/Client.antt runs on fuel, one request more than the directory has entries, which is
-- proved to be enough; serve of Rpc.antt runs on one step more than the client has calls, which is
-- proved to be enough too. The loops with two attempts of cachedWrite and readHandleFor count
-- their attempts down, and resolve is run along a schedule, so nothing here runs on assumed fuel.
--
-- Not modelled: that FromHandle of CachingHandler refreshes its LRU while a procedure runs, and
-- the callback by which an eviction there calls dropHandleAll (bindHandleEviction of server.go),
-- though Caching.antt models both operations of that handler by themselves; the listener, and the
-- goroutines and the context of a connection; logging; the cache of directory verifiers of
-- CachingHandler; and the directories of the file system in memory.
pub mod Action
pub mod Attributes
pub mod Backend
pub mod Base
pub mod Caching
pub mod Changes
pub mod Conn
pub mod Errors
pub mod Handle
pub mod Handlers
pub mod Listing
pub mod Memfs
pub mod Memory
pub mod Mount
pub mod ReadCache
pub mod Rpc
pub mod Server
pub mod Tests
pub mod Times
pub mod Tracker
pub mod Verifier
pub mod Words
pub mod WriteCache
pub mod Xdr
