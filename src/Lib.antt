-- ===== src/Lib.antt =====
-- Verification of the native code of the QF6 repository.
--
-- The native program is the RS485 client of RS485/tl/native_client/jni: `client.cpp` finds the
-- service "Demo" through the service manager, opens a serial port of the device, sends four commands
-- over it and prints four replies; `binderClient.cpp` holds the proxy that makes the binder
-- transactions. The same folder holds the platform headers that the client is built with, some of
-- which define code of their own; that code is modelled as well, header by header.
--
--  * Client: Client/Platform.antt holds what libbinder, libutils and libc do for the client, as a
--    parameter, and the state of a run (the service behind the driver, the text buffers in memory,
--    the trace of transactions, pauses and printed lines) with its commands: `ok`, `aborted` for
--    `abort()`, `fault` for a read of storage that is not allocated. Client/Proxy.antt is `BpDemo`,
--    Client/Lookup.antt `getDemoServ`, `IDemo::asInterface` and the virtual calls,
--    Client/Program.antt `printReplay` and `main`. The program has no loop, so there is no fuel.
--    The `int32_t` arguments are natural numbers, which the client only passes on.
--    Client/Simulated.antt is a platform that computes, for the examples.
--  * Bitops: cutils/bitops.h, bitmasks as lists of 32-bit words; an access outside the array is
--    `none`. The loops over words are structural recursion on the number of words left.
--  * BitSet: utils/BitSet.h, `BitSet32` as a record of its word.
--  * Audio: system/audio.h, the device, channel and format words and the functions on them.
--  * Window: system/window.h, the functions that send requests to a window through its hooks, which
--    are a parameter.
--  * StrongPointer: `sp` of utils/StrongPointer.h over the counter of `LightRefBase` of
--    utils/RefBase.h. A world is the counts of its objects and the list of its handles; a use of
--    a freed object is `none`. Counts are 32-bit words, so the theorems ask for fewer than
--    2 ^ 32 - 1 handles.
--  * WeakPointer: `wp` of utils/RefBase.h, over `RefBase` and `weakref_type`, which are a parameter
--    (`RefApi`) with what their calls do to the weak counts as hypotheses (`IsRefApi`);
--    WeakPointer/Compare.antt holds the comparisons, where a read of an `m_refs` that no constructor
--    has set is `none`.
--  * TypeHelpers: utils/TypeHelpers.h, the traits, comparisons and hashes, and the functions that
--    construct, destroy, copy and move arrays, over a memory of slots. Their loops are structural
--    recursion on the number of objects left.
--  * UniquePointer: utils/UniquePtr.h, over a heap of blocks; UniquePointer/Scope.antt is the life of
--    one such pointer from its constructor to its destructor.
--  * KeyedVector: utils/KeyedVector.h, over `SortedVector`, which is a parameter (`VectorApi`) with
--    what its calls find and change as hypotheses (`IsVectorApi`).
--  * HashChain: utils/BasicHashtable.h, the hash code in the cookie of a bucket, and the chain of buckets
--    that an entry may be in.
--  * Flattenable: utils/Flattenable.h, reads and writes at a moving cursor in a memory of bytes.
--    How a plain-old-data type lies in memory is a parameter (`Pod`).
--  * Parcel: binder/Parcel.h, how a parcel writes and reads a `LightFlattenable`, over the other calls
--    of a parcel and the class, which are parameters (`ParcelApi`, `FlattenableApi`) with what they
--    write and read as hypotheses. A call of a parcel may fail, and a write may move its storage.
--  * LinkedList: utils/List.h, a doubly linked list around a node without a value. Memory has one
--    map for each field of a node; LinkedList.antt holds all operations, LinkedList/Iterator.antt the
--    iterators. The loops run on fuel, and more fuel than the list has nodes is enough: the theorems
--    ask for that and say that the run ends.
--  * LruCache: utils/LruCache.h, over `BasicHashtable`, which is a parameter (`TableApi`) with what its
--    calls find and change as hypotheses (`IsTableApi`), on the tables that these calls make. LruCache.antt holds the links between the
--    entries, LruCache/Operations.antt the operations; `put` and `rehash` call each other on fuel, and
--    more fuel than pairs and one is enough. A put doubles the capacity of a full table in 32 bits, so
--    the theorems ask for a capacity below 2 ^ 30 before each call. LruCache/Model.antt is the sequence of pairs that the
--    clients see.
--  * Mutex: utils/Mutex.h, over the mutexes of pthreads, which are a parameter (`MutexApi`) with their
--    holder (`IsMutexApi`).
--  * Singleton: utils/Singleton.h, the calls of `getInstance` and `hasInstance` by any number of
--    threads. `advance` is the next statement of a thread, `Reach` the states that threads reach by
--    such steps in every order. The calls have no loop, so there is no fuel.
--  * Timers: utils/Timers.h, the conversions between units of time, on 64-bit words.
--  * String8: the size and the comparisons of utils/String8.h, and the header of its buffer, of
--    utils/SharedBuffer.h, over the bytes of memory. `strcmp` runs on fuel, and more fuel than bytes
--    in the first text is enough. String8/Dictionary.antt is the order of texts in a dictionary.
--  * Bits: digits of words, the population count, scans for the first and the last one, and tables
--    of values, for the headers above. Machine words are ℕ below 2 ^ 32, and the complement is
--    written for its width.
--
-- Not modelled: libbinder, libutils, libcutils and liblog, whose code is not in the repository;
-- headers that only declare their functions; the Java demo applications, documents and binaries.
mod Prelude
pub mod Bits
pub mod Bitops
pub mod BitSet
pub mod Audio
pub mod Window
pub mod StrongPointer
pub mod Flattenable
pub mod Client
pub mod LinkedList
pub mod WeakPointer
pub mod TypeHelpers
pub mod UniquePointer
pub mod KeyedVector
pub mod HashChain
pub mod LruCache
pub mod Mutex
pub mod Singleton
pub mod Timers
pub mod String8
pub mod Parcel
