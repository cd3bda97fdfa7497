-- ===== src/Lib.antt =====
-- A verification library for the policy engine: a Go program that decides authorization requests
-- against published policy revisions. Callers reach it through request types whose byte costs are
-- bounded (cost.go, limits.go); the application layer (internal/app) resolves a slot to a revision
-- through the two caches (internal/cache), evaluates against a store, and shares one work budget
-- in a batch; the memory store (store/memory) keeps revisions, tuples and attributes in persistent
-- search trees.
--
-- The files, and the code each one models:
-- Prelude: numbers, byte strings, lists, maps as association lists.
-- Errors: the error categories of errors.go, and fallible calls as values.
-- Budget: `budgetCounter` of limits.go. Its two integers are signed, as in the source, and the
--   product of `addMany` wraps around at 64 bits; no other operation of it leaves the range.
-- Model: the structs of data.go, policy.go, authorization.go, evidence.go, caller.go, events.go
--   and store/revisions.go, as records with the fields that the modelled code reads.
-- Cost: cost.go. `Parts`, `Requests` and `Responses` are its routines in its order; `Sizes` says
--   independently what each request accounts for.
-- App.WorkBudget: `batchWorkBudget` and `contextualDataVerifierBytes` of internal/app/batch.go.
-- Cache.Pointers: `PointerCache` of internal/cache/pointers.go. Each method holds the mutex, so it
--   is one step; a history is a list of calls from any goroutines. The map and the recency list of
--   the source hold the same entries and are one list, front first; the address of a reservation is
--   a number.
-- Cache.Revisions: `RevisionCache` of internal/cache/revisions.go and weight.go. `GetOrLoad` is
--   cut where it gives the mutex up: the entry, the completion by the loading goroutine, the wait
--   and its cancellation are steps, and `Step` is one of them. The store of calls keeps a call that
--   left the table of loads in flight. The eviction loop runs on fuel, the number of entries: each
--   turn evicts one, and the loop runs only if the entry limit is not zero and the value fits the byte
--   limit, so an empty cache needs no eviction and that much is enough.
-- Index: the trees of store/memory/indexed.go. The source writes the same AVL tree for revisions,
--   tuples, entities and path segments; `Index.Avl` is that tree over any comparison, and
--   `Revisions`, `Tuples` and `Attributes` are its four uses, `Copies` the helpers that are written out
--   once more for three of them. A nil pointer is `leaf`, and a call that would read a field of nil
--   is `none`. `Tries` is the path tries of attributes, whose children are such a tree again.
-- Memory.Events: the event log of one namespace of store/memory/events.go, as the steps that run
--   under the store's mutex: the next sequence number, an append with its retention, a page.
--   `Retention` says independently what retention keeps.
-- Limits, Validation: the public limits of limits.go and the rules of validation.go. `Runes` decodes
--   UTF-8 as Go's package does, `Canonical` is the sorted sets of
--   identifiers, `Patterns` the form of a namespace pattern.
-- Contracts: the constructors and validity rules of policy.go and events.go that the store calls.
-- Memory.Cursors: store/memory/cursors.go. The store's key is a record of functions: the keyed digest
--   and the base64 coding of Go's library, whose documented behaviour is `SealingLaws`.
-- Memory.Store, Slots, Writes, Publications: `Store` of store/memory/store.go and its methods
--   `Activate` (slots.go), `WriteData` (idempotency.go) and `PutRevision` (revisions.go). Each takes
--   the mutex twice: a first section that reserves and checks, and a second one that checks again and
--   commits; the clock is read between them. `Writes.Commits` is the second section of a data write. A
--   call that waits for another one's reservation returns the address that it waits on. A write comes
--   with its fingerprint, a byte string.
-- Memory.Interleavings: a world is a store and the calls that are between their two sections, each by
--   the address of its reservation. A step is one section, or the end of a call whose context is
--   done, which releases its reservation; `Reaches` is any number of steps.
--
-- A Go string is the list of its bytes. Integers are unbounded here where the source adds lengths of
-- data in memory; the counters compare before they add, as the source does. An instant is a number.
-- The structs and the artifact of the DSL package, which is not in the repository, are records with
-- the fields that the engine reads and a type parameter; its `Program` and `MarshalBinary` are
-- parameters.
--
-- Not modelled: snapshots and generation waits of the memory store (`GetDataGeneration`,
-- `OpenSnapshot` and the methods of a snapshot), `ListActivationHistory`, `expireEvents`,
-- `FingerprintWriteData`, the hooks that its tests use to pause or fail a call, and the errors of a
-- context or a clock; the SQLite store and its driver; the application services and the evaluator;
-- redaction, commands and conformance suites. The fields of
-- the store that only those hooks read are left out. The validity of a publication record, the form of a
-- revision's digest and the Unicode table of format characters are parameters.
pub mod Prelude
pub mod Errors
pub mod Budget
pub mod Model
pub mod Cost
pub mod App
pub mod Cache
pub mod Index
pub mod Limits
pub mod Validation
pub mod Contracts
pub mod Memory
