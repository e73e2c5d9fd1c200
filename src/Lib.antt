-- ===== src/Lib.antt =====
-- Verification of incus-compose, a program that runs compose projects on Incus.
--
-- Parts and how they interact. The command line (cmd/incus-compose) turns a compose project into
-- resources and runs actions over them with a Stack (client/stack.go), which sorts and batches them
-- by priority and runs each batch on a worker pool (client/pool.go). Two daemons follow the events
-- of the server through a chain of plugins (ievent): the source, the debounce
-- (ievent/debounce/debounce.go), the enricher (ievent/enricher), which keeps events in line while it
-- reads what they are about, and at the end the health checker of ic-healthd
-- (cmd/ic-healthd/checker) or the zones of ic-dns.
--
-- Which file models which part:
-- * Prelude and below: the shared names, Boolean tests, lists measured by native numbers, and maps
--   from texts as lists of entries (Dict), with predicates on their entries (Keyed);
--   signed numbers (Int), the functions of Go's package strings (Strings), counts and membership.
-- * Checker and below: cmd/ic-healthd/checker/instance.go and checker.go. Types holds the data, Step
--   the transitions of one instance, Config the parser, World what Run holds, Events the handlers of
--   events and the fold and drain of Run, Actions the rounds of runInstanceActions, and Results
--   handleInstanceResult. Sound is the invariant; Fold, Rounds and Replies show that the handlers
--   keep it, and Loop is Run as a step relation. Wake, Verdicts, Inbox and Jitter are about the
--   timer, the verdicts, the drain and the random delays.
-- * Enricher/Queue and below: ievent/enricher/queue.go. The ring holds pointers into a heap of items;
--   Line is the same as a list, Window and Invariant are about the ring's slots, Refine and Run
--   relate the two.
-- * Enricher/Retries and below: ievent/enricher/retries.go.
-- * Enricher/Reads and below: the table `deferred` of ievent/enricher/reads.go. A call is known by a
--   number into a heap, and which reads the pool takes is a parameter. Sound says where every call
--   is; Sending, Replacing, Passing and Landing show that the operations keep it, and Idle is a run.
-- * Enricher/Reader and below: one read of an instance, `incusReader` of the same file; the turns of
--   its poll are a list.
-- * Enricher/Fleet and below: ievent/enricher/state.go. Devices finds the NICs of a read, and Placing
--   is `interfaces` and `setInstance`; Accounts and Placed prove what a read leaves, and Prune what a
--   listing does.
-- * Debounce and below: ievent/debounce/debounce.go. Stream says what leaves for one key, Closing and
--   Accepting what the operations do to it.
-- * Pool and below: client/pool.go, Run as a relation between the states of its goroutines. Accounts
--   counts workers and tasks, Ends is about the results and Steps about the length of a run.
-- * Stack and below: client/stack.go. Sorting, Batches and Seen are about its lists, Running is Run.
-- * VolumeLock and below: client/resource_storage_volume_lock.go, the lock file of a volume and the
--   holders that contend for it, as a step relation with one clock. A call on the server is a step,
--   but opening and reading in readLock are one, and so are opening, writing and truncating in
--   refresh. Exclusion and Takeover say who can hold it.
-- * Views and below: the claims on views of cmd/ic-dns/dns/state.go. Claims says what each operation
--   does to them, and Balance what an instance that comes and goes does.
--
-- * Placement and below: project/placement.go. Order puts the members of a cluster in order, Resolve is
--   resolveServicePlacementEnv, and Storage asks whether storage is remote, with the cache of
--   client/global_client.go. Deal, Names and Spread are lemmas on the order, the names and the
--   targets; Yields takes a property of the targets through Resolve, Replicas and Eligible use it.
-- * Ports and below: parsePortSpecs and validatePortOrRange of project/network_acl.go.
-- * Store and below: ResourceStore of client/resource.go.
-- * Labels and below: cmd/ic-dns/dns/labels.go.
--
-- A function of the source is a function of the same name here, in lower case with underscores; a
-- method takes its receiver as its last argument and returns it changed. Goroutines started and
-- status writes are effects in a list. Instants and durations are nanoseconds as natural numbers, but
-- for a start period, which may be negative. A handler reads the clock once. A Go map is a list of
-- entries, ranged over in any one order that the list happens to have. A function with several results
-- and an error returns a sum or a data type with a constructor for each.
--
-- Bounds and fuel. The results channel of the checker holds 32, and a send that would wait is an
-- outcome (`blocked`), as is a panic. The product in baseRestartDelay wraps at 2^64. The walk of a
-- ring takes as many turns as it counts items, which is enough since each takes one out. The deal from
-- the buckets of a placement takes as many turns as there are members, which is enough since each
-- deals one at least. Nothing else runs on fuel. The product of members and max_replicas_per_node
-- wraps at 2^64, and a negative count of replicas panics.
--
-- Not modelled: the calls of the Incus API and their outcomes, which are reports that may arrive in
-- any order; logging and metrics; the decoders of JSON, durations and numbers and Incus's
-- `util.IsTrue`, which are parameters of the parser; what the extensions of a compose file decode to;
-- the drivers of the storage pools, which are a parameter; and the parts of the repository that the
-- files above do not name, among them the rest of the translation of compose projects, the zones and
-- answers of ic-dns, and the sweeper and the stores of the enricher.
pub mod Checker
pub mod Debounce
pub mod Enricher
pub mod Labels
pub mod Placement
pub mod Pool
pub mod Ports
pub mod Prelude
pub mod Stack
pub mod Store
pub mod Views
pub mod VolumeLock
