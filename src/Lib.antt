-- ===== src/Lib.antt =====
-- DocMesh: the core of backend/app, a local library of documents that are split into chunks,
-- deduplicated, embedded, indexed and searched.
--
-- A document that is uploaded gets a row and waits in a queue. The worker extracts its text as
-- blocks with exact offsets, cuts the blocks of each section into chunks of a bounded number of
-- tokens that overlap, drops the chunks that stand in the library already, and writes the others
-- to the database, the vector store and the keyword index, with an event for each stage.
--
-- Prelude        Booleans, lists, slices and their lemmas over the native numbers.
-- Text           Texts as lists of code points; strip, join, regular expressions of the form [..]+
--                as runs, and spans. The Unicode tables of the runtime are an instance argument.
-- Dict           Dictionaries as lists of entries, by an interface of keys.
-- Extract        backend/app/ingestion/extractors/base.py. Base holds `_DocBuilder` and
--                `_SectionTracker`; their methods return the changed object. Paragraphs is `extract`
--                of backend/app/ingestion/extractors/text.py, from the decoded text on. Pdf and
--                Docx are pdf.py and docx.py beside it, from what the parsers return; the sizes of
--                fonts are an interface.
-- Chunker        backend/app/ingestion/chunker.py. Sentences is `split_sentences`, Oversized is
--                `_split_oversized`, Packing is the inner loop of `chunk_document`, and Document
--                the rest of it. The token counter and SHA-256 are parameters, and the overlap
--                budget, a product of floats in the source, is a number.
-- Storage        backend/app/schemas/documents.py and backend/app/storage/sql: tables are lists of
--                rows in the order of insertion, a query a function, a time a number.
-- Ingest         backend/app/ingestion/queue.py. Exec has the state that the worker shares with the
--                stores, and actions that may raise; Dedup is `_dedup_and_embed`; Pipeline is
--                `_run_pipeline` with what it calls of the vector store and the keyword index.
--                Broker is backend/app/ingestion/broker.py, with a queue as a number.
--                Startup is the repair of what a crash left, in backend/app/main.py, less the check of
--                the graph, which Graph has.
-- Upload         backend/app/ingestion/validators.py: Detect is `detect_file_type`, Stream is
--                `stream_to_disk_capped`, Filename is `sanitize_filename`. Reading an archive's
--                directory, decoding UTF-8, SHA-256, `basename` and `upper` are parameters, and an
--                upload is the list of the reads to come.
--                Service is `DocumentService` of backend/app/services/document_service.py: `upload`
--                and `delete` on the state of Ingest, with the folder of uploads as a list of names.
-- Llm            backend/app/llm/interface.py, `truncate_at_word` of backend/app/llm/prompt.py, and
--                numbers in texts. The table of decimal digits is an instance argument, and the model
--                a function.
-- Search         Schemas is backend/app/schemas/search.py. Highlights is `_term_highlights`
--                and `_best_sentence_by_terms` of backend/app/services/search_service.py, over the
--                `tokenize` of backend/app/search/bm25.py, with the matches of a term as a parameter.
--                Fusion is backend/app/search/fusion.py, over the interface `Scores`. Service is
--                `SearchService` with the order of backend/app/search/reranker.py; the two rankings
--                and the scores of the models are parameters. Keyword is the `BM25Index` of
--                backend/app/search/bm25.py.
-- Vectors        backend/app/storage/vector/faiss_store.py. Faiss is what it calls of FAISS, a parameter
--                with its documented behaviour; Store is `FaissVectorStore` with its three dictionaries
--                (Dict). Represents says which rows of vectors a store stands for: those rows are what
--                Ingest has in place of the store.
-- Ask            backend/app/llm/qa_prompt.py: Citations is `parse_citations`, Prompt the rest.
--                Service is `AnswerService` of backend/app/services/answer_service.py behind the
--                retrieval, with the bucket and the runs of the model as its state.
-- Graph          backend/app/schemas/graph.py over a type of scores: the floats of the source are an
--                interface, `Scores`, without laws. Combiner, Entities, Semantic and Topics are
--                backend/app/graph/combiner.py, entities.py, semantic.py and topics.py there, Edges
--                backend/app/storage/sql/edge_repo.py. Of backend/app/services/graph_service.py:
--                Build is `_build_edges` and `_build_analyses`, with the signals as parameters;
--                Hydrate the reads and scores of `_recompute_locked` before its writes, from the
--                chunks (Storage) and the vectors (Vectors) of the documents; Recompute the writes,
--                `is_stale`, and the check of the graph at the start (`repair_graph`, of
--                backend/app/main.py), where the recompute is a call, not a task; Query the query mode of
--                `get_graph`; Views the reads.
-- Explain        Prompt and Output are backend/app/llm/prompt.py, Template is
--                backend/app/llm/template.py, Records backend/app/storage/sql/explanation_repo.py, and
--                Service is `ExplanationService` of backend/app/services/explanation_service.py. The
--                digest of the cache key is a parameter.
-- RateLimit      backend/app/core/ratelimit.py, in sixtieths of a token instead of floats.
-- Tests          Concrete inputs.
--
-- Faults: the world holds a list of outcomes for the calls to come. A call that is to raise raises
-- before it has an effect; what was written before stays. Reads of one step, such as those of the
-- near-duplicate pass, are one call. Models (embedding, similarity) are parameters.
--
-- Loops: each round of the packing loop takes a unit, so it has the number of units as fuel; a
-- halving has the length of its span, and the search for paragraphs the length of the text. Other
-- loops are recursions on lists.
--
-- Not modelled: logging, durations and details of events, the graph recompute behind a finished
-- run or a deletion with its lock and its events, the queue's loop, the local language model, the
-- embedder, the migrations, and the HTTP routes. A deletion leaves out what the cascade does to edges,
-- analyses and explanations, and what waits in the queue.
pub mod Prelude
pub mod Text
pub mod Dict
pub mod Extract
pub mod Chunker
pub mod Storage
pub mod Ingest
pub mod Upload
pub mod Llm
pub mod Search
pub mod Vectors
pub mod Ask
pub mod Graph
pub mod Explain
pub mod RateLimit
pub mod Tests
