-- ===== src/Lib.antt =====
-- Verification library of Amazon Vinyl, an HTML5 playback engine for DASH and HLS streaming.
--
-- The program is a set of packages under packages/. This library models the parts whose
-- correctness is a matter of their own logic, and proves what the rest of the engine relies on.
--
-- Common, Common/Tests, Common/Lists: names shared by all files, Boolean tests, JavaScript's
--   array reads and `splice`. A read past the end of an array is `none`, and a chain of steps that
--   may throw is a do block in Option.
-- Int: JavaScript numbers that hold whole values.
--
-- Array models sortedInsertionIndex of packages/vinyl-util/src/util/collection/array.ts, on which the
--   range lists stand. The loop takes fuel, one more than the width of the searched part, and each
--   round narrows that part. `>>> 1` works on 32-bit words, so its wrap-around is written out, and
--   theorems ask for at most 2 ^ 31 elements.
-- Ranges models packages/vinyl-util/src/util/range/Ranges.ts: RangesImpl as the list that it keeps,
--   `add`, `remove`, the constructor (`add_all`) and the three queries. Its numbers are compared,
--   bounded by `Math.min` and `Math.max` and moved by a tolerance, so they are counted in a unit
--   that divides all of them, from an origin below all of them; a difference with the tolerance only
--   meets `<=`, for which subtraction that stops at 0 gives the same answers. Ranges/Order has the
--   invariant, Ranges/Add and Ranges/Remove the operations, Ranges/Query the queries,
--   Ranges/Constructor the constructor. Ranges/Union and Ranges/Intersection are UnionRanges.ts and
--   IntersectionRanges.ts with their cache flags; the inner ranges are given by their lists.
--   Iteration, `clone`, `clear` and printing are left out.
--
-- CacheManager models packages/vinyl-cache-manager/src/cacheManager/CacheManager.ts. The browser's
--   requests, responses and `Cache` objects are the records `Platform` and `CacheApi`, whose laws say
--   that a cache finds what was stored last under a request and nothing once it was deleted. A call
--   of `get` takes the network's answer as an argument and gives the response, the cache once every
--   promise has settled, and whether the network was asked. Times are whole milliseconds; a missing
--   or malformed time compares false. CacheManager/Behavior has the time comparisons in milliseconds,
--   CacheManager/Answer and /Get the outcomes of `get`, CacheManager/Quiet when it leaves the network
--   alone, CacheManager/Clean what `clean` keeps. Opening the cache and `clear` only call the browser.
--
-- LinkedList models packages/vinyl-util/src/util/collection/LinkedList.ts: nodes are numbers, and
--   their fields are cells of a heap, so that every write of the source is a write of the model and
--   a node outside the list keeps its stale pointers. LinkedList/Nodes and LinkedList/Segment say
--   what it is for the cells to form a chain (`Holds`), LinkedList/Unlink, /Append, /Prepend and
--   /Insert are the operations that move nodes, LinkedList/Ends the ones at the ends, LinkedList/Walk
--   and LinkedList/WalkBack the loops. A loop along the chain takes as fuel one more than the number of nodes that exist, and
--   LinkedList/Count proves that no chain is longer. A callback does not change the list while a
--   loop runs. `createIterator` is left out.
--
-- LruCache models packages/vinyl-util/src/util/collection/LruCache.ts on top of LinkedList: a record
--   of JavaScript's map, as an association list, the linked list of entries and the capacity. An
--   operation that may evict gives the object afterwards, the entries handed to `onEvict`, and whether
--   it throws. `onEvicting` is an argument and does not change the cache. LruCache/Entries says what
--   it means that the map and the list agree. The iterators are left out.
--
-- BitReader models packages/vinyl-util/src/util/buffer/BitReader.ts as a reader: a function of the
--   bytes and the position that gives a value and the position after it, or an error. A read behind
--   the last byte takes 0, as the bit operations do; `readBits` refuses it. BitReader/Fields says what
--   it is for bytes to spell out bit fields and for a reader to read them back, BitReader/Positions
--   the same at one position, BitReader/Packing puts bits into bytes, BitReader/Outcomes is about what
--   holds after a reader. Positions are below 2 ^ 31, where the shifts of the source are exact.
--
-- SpliceInfo has the data of packages/vinyl/src/ad/scte35/SpliceInfoSection.ts. Scte35 models
--   decodeSpliceInfoSection.ts beside it, the decoder of cue messages given as bytes, and Scte35/Avail
--   is getSpliceAvail, the avail that one signals. Scte35/Syntax
--   is the layout of the standard, independent of the decoder; Scte35/Command, /Descriptor,
--   /Descriptors, /RoundTrip and /Encoded read it back, and Scte35/Bounds and /Ends are about any bytes
--   at all. The loop over the descriptors takes as rounds one more than its length in bytes, since a
--   round moves on by two bytes at least. The decoding of text to bytes is left out.
--
-- Transmux models the readers of packages/vinyl-transmux/src. Transmux/Adts is aac/adts.ts: the
--   search for frames, which has a round for each byte and one more, and the AudioSpecificConfig of
--   a frame. Transmux/MpegTs is mpegts/mpegts.ts: the tables, the PES headers and the joining of
--   buffers, and Transmux/MpegTs/Demux its two passes over the packets. Bytes are below 256, as in a
--   Uint8Array, so that `|` of bits at different places is a sum; a read outside the array is 0 to
--   the bit operations, and a position that would be NaN is `none`. The loop over the entries of a
--   map has as rounds the length of its section and one more; an entry takes five bytes at least.
--   The writing of MP4 boxes is left out.
--
-- BufferReader models packages/vinyl-util/src/util/buffer/BufferReader.ts in the same way as a reader
--   of bytes from a position; the DataView behind it reads big-endian numbers. Sidx models
--   packages/vinyl-util/src/util/mpeg/parseSidxBox.ts on top of it. Whether the platform has BigInt
--   is an argument. The sample times are doubles: Double rounds `Number(bigint)` and each sum to 53
--   bits, ties to even, with fuel for the bits lost of a number below 2 ^ 1023, far above any sum of
--   a 64-bit time and 65535 durations of 32 bits.
--
-- TaskQueue models packages/vinyl-util/src/util/async/TaskQueue.ts: its operations, and the end of a
--   running task, are steps of a state that has the pending entries in the order of the linked list,
--   the number of running tasks, the number of the current abort signal and the events so far.
--   `checkQueue` takes an entry out in each round, so its loop, and the calls of it inside `execute`,
--   have one round more than there are entries. Which tasks throw at once is an argument; a task does
--   not call the queue while it is started. What becomes of an aborted task that runs is the end of it.
pub mod Common
pub mod Array
pub mod Ranges
pub mod Int
pub mod Double
pub mod CacheManager
pub mod LinkedList
pub mod LruCache
pub mod BitReader
pub mod SpliceInfo
pub mod Scte35
pub mod Transmux
pub mod BufferReader
pub mod Sidx
pub mod TaskQueue
mod Tests
