-- ===== src/Lib.antt =====
-- juicemud: a multi-user dungeon whose objects, files and locks are kept in a key-value store and in
-- SQL tables. This library models the parts of the program below, in Go, and proves what they promise.
--
--   Base      text, lists by index, association lists, errors and results
--   Heap      heap/heap.go, a binary heap (Up and Down: the loops; Laws: Push and Pop; Shuffle:
--             what they do under any comparison)
--   Dbm       storage/dbm/dbm.go, records under keys, in batches (Reference: what a batch should do;
--             Batch: that it does; Single: one record; Typed: TypeHash and SProc)
--   Structs   structs/schema.go, structs.go and utils.go: objects, what is seen of them, event keys
--   Objects   storage/storage.go, StoreObject, EnsureObject, LoadObject (World: where objects are;
--             Moves, Keeps and Store: what a store does to that)
--   Sync      juicemud.go, SyncMap (Locks: Lock and Unlock as steps of threads; Exclusion) and Increment
--             (Clock; Ascent: its values)
--   Files     storage/storage.go, files, groups and users (Access: groups; Sources: contents and the
--             log of changes; Ops: operations; Paths: path/filepath; Entry and Replay: sync;
--             Guards and Grants: who may; RoundTrip: StoreSource and sync together)
--   Dav       dav/dav.go, a WebDAV handler (Timeout: headers; Handlers; Locking: what its locks do)
--   Queue     storage/queue/queue.go, events by their times (Due: the next event is the earliest;
--             Loop: no event that is due is left; Serving: Start as steps of goroutines; Watch,
--             Phases, Drained and Handled: what is left, and was handled, when it returns)
--   Fs        fs/fs.go, the file system that it serves, over Files (Pathify: paths)
--   Digest    digest/digest.go, HTTP digest authentication (Header: what a client writes is read back;
--             Guard: who gets past it)
--   Lang      lang/lang.go, counts and lists in English (Listing)
--   Fanout    game/fanout.go, a writer for many terminals (Delivery)
--   Skills    game/skills/skills.go, uses of skills that recharge (Tracking)
--   Js        js/js.go, scripts as the calls that they make (Running: Target.Run; Registry: its
--             callbacks; Effects: what a run can change)
--   Game      game/processing.go and game.go: events (Emit), objects with their scripts (Storage), the
--             functions of scripts (Scripts), runs (Run) and the start (Start); connection.go: the
--             terminal (Terminal), users (Login) and commands (Commands). Stable, Harmless, Keeps and
--             Safety: what no script can do; Asking, Authentic, Joining and
--             Refused: who may do what; Toy: an instance for tests
--
-- The layers: Dbm stands on tkrzw, Objects and Files.Sources on Dbm, Files.Ops on Access and Sources.
-- The game stands on all of them: an event of the queue runs the script of an object, which calls
-- functions of Go that read and store objects, and put events in the queue.
-- Names are those of the source: store_object is StoreObject, run_sync is runSync, hash_proc is
-- Hash.Proc. Strings and byte slices are lists of numbers; a map is an association list.
--
-- Parameters: tkrzw is the record Tkrzw of Dbm, SQLite with sqly is the record Sql of Files, and the
-- tree of events is the record Tree of Queue, with what calls that succeed have done; of the comparator
-- of its keys it is said what it makes of their first eight bytes, and no more. The encoding of
-- schema.go is Serializable of Dbm.Typed, with its round trip. V8 is the record V8 of Js, with a script
-- as the sequence of the calls that it makes; the floating-point numbers of skills are Numbers of
-- Skills; what the game takes from other libraries is Parts of Game. The check of a skill, the movement handler and url.Parse are function
-- arguments. Dbm.Memory, Files.Memory, Queue.Memory and Game.Toy are instances for tests.
--
-- Fuel: a heap's loops take as much as it has items, sync more than its log has entries, and the
-- loop over events that are due more than there are events: these are proved to be enough.
-- delFileIfExists takes as much as its recursion is deep. The loop of recharge takes more than the heap
-- has entries, and the loops of a login more than the lines that the terminal gives: these are proved
-- to be enough. A script may have scripts of other objects run, and so on: Game.Run.level is on fuel for
-- how deep that goes, and what is proved of runs is said of any fuel. There is none that is enough for
-- all scripts. Where a result is an option, `none` says that the fuel ran out, or that a run waits for a
-- machine for ever.
--
-- Not modelled: the generated code of schema.go, floating-point numbers (their bits are passed on), the
-- server, the time that a script may take, and the interleaving of runs of scripts.
pub mod Base
pub mod Heap
pub mod Dbm
pub mod Structs
pub mod Objects
pub mod Sync
pub mod Files
pub mod Queue
pub mod Dav
pub mod Fs
pub mod Digest
pub mod Lang
pub mod Fanout
pub mod Skills
pub mod Js
pub mod Game
