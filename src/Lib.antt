-- ===== src/Lib.antt =====
-- Turbograph: a retrieval store for documents, with vector, lexical and entity-graph indexes.
--
-- Parts and files
--   Prelude           numbers, tests, lists, and Go maps as association lists.
--   Entity            the knowledge graph of entity/entity.go (Graph.Add, DropChunks) and its upkeep in
--                     entity/canonical.go (Prune, Canonicalize). Entity/Defs holds the state and the
--                     operations, Valid is its invariant; Add, Drop and Prune are about the operations.
--                     Distance is levenshtein, Edits and Rows are about it, Names the test
--                     mergeableNames, Canonical the operation Canonicalize. Heads, Merged, Keyed,
--                     Rewrite and Kept are about its loops over the names and over the relations.
--   Rag/Chunk         a chunk and its indexed text (rag/chunk.go).
--   Rag/Store         the state of a store and its write path: rag/store.go, rag/update.go,
--                     rag/versions.go, rag/document.go and the cache of rag/entitygraph.go.
--                     Defs is the state, Index the indexes that are derived from the arrays, Docs
--                     the documents (removeDocLocked is remove_doc, applyPreparedLocked is
--                     apply_prepared, DeleteDocument is delete_document, and so on).
--                     Sync, Append, Listed, Sound, Apply, Batch, Exported are about the invariant,
--                     Forget and Refuse what deleting leaves and what is refused, Reindexed what
--                     Reindex leaves as it is, Even about the dimension of the embeddings.
--   Rag/Store/History the versions of a document as they are read (rag/versions.go).
--   Rag/Journal       the ingestion journal (rag/journal.go): OpenJournal is open_journal, MarkDone is
--                     mark_done. Durable is about what a restart finds.
--   Rag/Ingest        Ingest of rag/ingest.go. Prepare has prepareDoc (rag/update.go) and
--                     prepareForIngest, Run the workers, the channel of results and the loop that
--                     installs documents and makes checkpoints, as steps of one state. Live is about
--                     the end of a run, Gone and Counted about what is counted, Recorded, Noted and
--                     Safe about the store, the journal and the last save.
--   Rag/Mmr           mmrRerank (rag/mmr.go). Defs has the rounds, Selected is about the selection.
--   Rag/Chunkers      the chunking strategies (rag/chunkers.go). Defs has the word and recursive
--                     strategies, Markdown the loop over lines; Windows is about the words of a
--                     document, Visible and Kept about empty pieces.
--   Heap              the binary heaps of index/hnsw_heap.go, index/topheap.go and lexical/bm25.go,
--                     which differ in a test on two entries. Order is the invariant, Sift the loops,
--                     Ops push and pop, Bounded and Exact the heap that keeps the best hits, Merge
--                     several such heaps over the parts of a scan.
--   Hnsw              the layered graph of the vector index (index/hnsw.go, index/hnsw_heap.go).
--                     Marks is the visited set, Graph the state, Search the walk of a layer
--                     (greedyDescend is greedy_descend, searchLayerFiltered is search_layer), Insert
--                     an insert (Add is add_vector) and the indexes made from exported links.
--                     Total and Walk are about the turns of the loops, Layer and Query about what a
--                     search returns, Well, Connect, Extend and Grow about the links, InRange about
--                     what is read in range, Restore about exported links.
--   Flat              the flat index (index/index.go): Defs is the state with Add, AddBatch, scan and
--                     Search, and Scan is about the workers of scan.
--   Lexical           the tokenizer and the inverted index (lexical/tokenize.go, lexical/bm25.go).
--                     Defs is the state, Rank the statistics and the search; TopK and Matched are
--                     about the search. Fusion is RRF of lexical/rrf.go.
--   Graph             the similarity graph (graph/graph.go) and its communities (graph/community.go):
--                     Defs is the builder, Rows the graph in compressed rows, Propagate the label
--                     propagation (DetectCommunities) and Community the renumbering (compact). Joined
--                     is about the labels that are propagated, Frozen about the compressed rows.
--   Eval              the ranking metrics (eval/metrics.go). Metrics has them, Ranked is about the
--                     loops that skip repetitions, Bounds about the counts.
--
-- The store calls the entity graph (DropChunks, on a delete and on an update) and the two indexes.
-- The indexes are reached through the record Services, with the laws of IndexLaws: an index lists
-- the ids that it was given, in order. Hashes, metadata and vectors are types of the record Sorts.
--
-- A step of Ingest is one turn of a goroutine, and any order of the turns is a run. A worker reads
-- the store and the journal at one moment, when it takes its document. The channel of documents is
-- filled before, and holds what is left of it. A step says whether Save, and the flush of the
-- journal, succeed.
--
-- An operation of the store stands for the code under its write lock. A pointer of the entity graph
-- is the canonical name of the node; a weight, a float32 that counts, is a number. Nil maps and
-- empty maps are not told apart. A clock reading is an argument. Every function is total by
-- recursion on a list, so that no fuel is needed, but for four loops. Each window of wordChunker drops
-- a word at least, so that a turn for each word is enough. An entry of a heap moves at most as often
-- as the heap has entries. Each turn of greedyDescend goes to a nearer node and each turn of
-- searchLayerFiltered takes a candidate that was not seen before, so that a turn for each node, and
-- one more, is enough; where these would run out the result is none.
--
-- The visited set of a search is a new one, as the pool may hand out. An ordinal of the vector index
-- is a number: there are fewer than 2^31 nodes. The rows of the flat buffer are a list of vectors.
--
-- Where Go stops the program: a vector that is too long for normalize, and a node, a level or a
-- neighbor out of range in a walk or a search of the layered graph, make the result none. The other
-- reads of the links in an insert, of the length or the id of a posted document, and a top heap of no
-- capacity are written for arguments in range; out of range they are an empty list, 0, the empty
-- text or the heap as it is. A community weight is compared from no weight on, where the code starts
-- from -1: the sums of weights are not below it, and not NaN.
--
-- A file of the journal is a list of lines with a last one that may not end. A writer that has failed
-- takes nothing more, and what it leaves in the file is a parameter.
--
-- Parameters: package strings, unicode and encoding/json (TextOps, Unicode, Strings, Json), the order
-- of float32 weights (Weights), the vectors with their distances (Space), the codes with their scores
-- (Codes), the arithmetic of the BM25 scores (Floats), and sort.Slice and sort.Strings, which are
-- functions on lists, except in Canonicalize and RRF, where Prelude/Sorting sorts; the case mappings
-- and the tokens of names (Spelling), the chunker and the embedder of an ingestion (Sources), the
-- floats of mmrRerank (Similarity), of RRF and of the metrics (Reals). Their laws are hypotheses of
-- the theorems that need them.
--
-- Not modelled: the similarity edges of a store (of its graph the number of nodes is kept), PageRank,
-- the values of floating-point scores, the queries of a store with their reranking and snippets,
-- merging and management of stores, redaction, files and the network, the server, the command line
-- and the clients.
pub mod Prelude
pub mod Entity
pub mod Eval
pub mod Flat
pub mod Graph
pub mod Heap
pub mod Hnsw
pub mod Lexical
pub mod Rag
