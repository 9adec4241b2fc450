-- ===== src/Lib.antt =====
-- The DiskANN index of pgvectorscale (pgvectorscale/src): the graph that an index keeps over
-- vectors, the searches of it, and the data that they stand on.
--
-- Pointer (util/mod.rs) has pointers to items; Labels (access_method/labels/mod.rs) the sets of
-- labels that a query filters by; F32 and Distance (graph/neighbor_with_distance.rs) distances
-- with a tie break; Node (sbq/node.rs, plain/node.rs) the nodes of the graph with their neighbor
-- slots; StartNodes (graph/start_nodes.rs, and update_start_nodes of graph/mod.rs) the nodes where
-- a search enters; Stats (stats.rs) the counters; Search (graph/mod.rs, and the callbacks of
-- sbq/storage.rs) the greedy search; Prune (prune_neighbors of graph/mod.rs) the choice of the
-- neighbors of a node. Merge (merge_neighbors_on_disk of graph/mod.rs and the conditional write of
-- sbq/storage.rs) writes neighbors against other backends; PageType (util/page.rs) has the types
-- of pages, and Lru (util/lru.rs) a cache with counters, over the cache of the lru crate as a
-- parameter. Relation (util/page.rs) has the pages of an index, which Chain (util/chain.rs) writes
-- items of any size to, over several pages, and Tape (util/tape.rs) items that fit on one.
-- VectorType (vector_type.rs) checks dimensions and datums; Options (options.rs, storage.rs,
-- distance/mod.rs) has the build options; MetaPage (meta_page.rs) is made from them, stored as a
-- chain behind a root page that is replaced at once, and fetched from pages of three versions;
-- Vacuum (vacuum.rs) fetches it to find the kind of the nodes, and marks the dead ones. Scan
-- (scan.rs) draws rows from a search, one by one or through a buffer that orders them by their
-- full distance, which is a parameter, and for SBQ storage keeps the page of the last one pinned;
-- the arm of plain storage is left out, and the counters of its statistics have no bound.
-- ArrayOverlap (access_method/mod.rs) is the operator on arrays of labels; Quantizer
-- (sbq/quantize.rs) makes words of bits of a vector.
-- A search takes its start nodes from StartNodes, reads nodes through a pointer,
-- filters them by their labels, orders them by distance, and counts what it does in Stats.
--
-- Names are those of the source. A function that may panic returns an Option, where `none` is the
-- panic; a method that changes its object returns the new state. The loop of greedy_search_iterate
-- runs on fuel (Base.Loop), and as much fuel as there are nodes left to meet and candidates is
-- enough. A 32-bit float is its bit pattern; distances of quantized vectors are a parameter of a
-- search. Pruning is over an interface of 64-bit floats and one of a storage that computes
-- distances, and ends once alpha has passed its limit. A merge is run against a finite list of
-- writes of other backends, one between the read and the write of each attempt. The page constants
-- of PostgreSQL are parameters, and a pointer always names a node, since PostgreSQL raises an
-- error otherwise. Among candidates that compare equal the order of the binary heap is not
-- documented; here the last one in comes first.
--
-- A relation is the list of its pages, and a page the list of its items; a page that was allocated
-- and not committed has no type. Writes of chains run on fuel, of which a unit for each byte is
-- enough. The encodings of rkyv, the free space of a page, the place of the heap pointer in a node
-- and the callback of a vacuum are parameters.
--
-- Not modelled: the build of an index and its neighbor cache, the insertion that calls these parts,
-- the start of a scan, the training of the quantizer and the plain storage, which remain to be
-- done; the calls of PostgreSQL, processor intrinsics and log lines, which are input and output and
-- not logic of the program.
pub mod Base
pub mod Pointer
pub mod Labels
pub mod StartNodes
pub mod F32
pub mod Fixtures
pub mod Distance
pub mod Node
pub mod Stats
pub mod Search
pub mod Prune
pub mod Merge
pub mod PageType
pub mod Relation
pub mod Chain
pub mod Quantizer
pub mod ArrayOverlap
pub mod Scan
pub mod Vacuum
pub mod Tape
pub mod Options
pub mod MetaPage
pub mod VectorType
pub mod Lru
