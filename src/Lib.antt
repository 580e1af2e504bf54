-- ===== src/Lib.antt =====
-- Froth, an interactive language for microcontrollers: its parser, the memory, the slot table, the
-- values and the snapshots of its runtime, and the codec of the code that a snapshot holds.
--
-- The parts and the files that model them, with paths from the repository's root:
-- Status: froth_error_t and FROTH_TRY of src/froth_types.h. A function that returns an error code
--   is a function into `Result`; one that changes a state is an `Exec`, which keeps what was
--   written before a failure.
-- Heap: src/froth_heap.c, the bump allocator. A pointer into it is its byte offset.
-- Cellspace: src/froth_cellspace.c, the array of cells and its copy for the base image.
-- Slots: src/froth_slot_table.c, the named slots. A slot's name is an offset into the heap, so
--   creating a slot changes a store of a heap and a table.
-- Spans: the free lists of src/frothy_value.c. The functions over bytes (_payload_free_span) and
--   over cells (_free_span) are the same code, and one model serves both.
-- Payload: the payload heap of src/frothy_value.c, over the free lists.
-- Value: the tagged 32-bit words of src/frothy_value.c.
-- Objects: the table of objects of src/frothy_value.c: finding and adding objects, references,
--   texts, cells, natives, the class of a value and equality. `Runtime` has the fields of frothy_runtime_t
--   that these use; its list of objects is the table below object_count. Release has the release of
--   a reference, which goes on through the cells and the fields of an object that loses its last one.
-- Names: src/frothy_name_rules.h, which byte strings are names; isalpha and isalnum are arguments.
-- Crc32: src/froth_crc32.c.
-- Snapshot: src/frothy_snapshot.c, over the snapshot files of platforms/posix/platform.c: the
--   fields of a header (Le, Header), the files (Storage), the choice of the slot (Pick), saving
--   (Save, Saved), a save that stops half way (Crash) and restoring (Restore).
-- Ir: the data of src/frothy_ir.h, literals, nodes and programs. Render has the printed form that
--   frothy_ir_render of src/frothy_ir.c makes; the string builder is the text appended.
-- Parser: src/frothy_parser.c, from the bytes of a source to a program of Ir. Token has the tokens
--   and the punctuation, Lexer the reading of one token, Capacity the growth of the arrays, State
--   the state of a parse and how its steps are put together, Pools the adding of literals, nodes and
--   links, Scopes the names (declared and looked up), Advance the cursor, and Params, Blocks,
--   Control, Expr and Top the grammar, from parameter lists to whole programs. Runs has
--   the proofs on whole parses, one module for each part of the grammar.
-- Codec: src/frothy_snapshot_codec.c, the bytes of a payload: the writer (Put) and the reader (Get),
--   the symbol table (Symbols), the table of objects and values (Values), and code objects: their
--   writer (Nodes, Code), the check before anything is decoded (Validate), the pass that adds up the
--   storage of the strings (Measure) and the decoder (Decode, Code). Fields, Transmit,
--   Measure/Agrees and Validate/Follows have what the proofs share: how a write and a read, or two
--   reads of the same bytes, fit together.
-- Tests: runs at concrete inputs.
-- Base: shared names; lists, Boolean tests, integers and bit operations over native numbers.
--
-- The functions keep the C names without the prefix of their file: `Heap.allocate_bytes` is
-- froth_heap_allocate_bytes. An out-pointer is part of the result; the structure that a function
-- changes is its last argument.
--
-- Cells are 32 bits wide (FROTH_CELL_SIZE_BITS) and their arithmetic wraps where the source's does.
-- The sizes that the build sets (FROTH_HEAP_SIZE, FROTH_SLOT_TABLE_SIZE and the snapshot's limits)
-- and those of the target (the alignment of max_align_t, SIZE_MAX) are arguments. Loops are
-- recursions over the list or the count they run through. A release, a
-- parse and the printing of a node take a fuel, the depth to which they may call themselves: more
-- than there are counted references is enough for a release, one more than the bytes of the source
-- for a parse, and the number of nodes for the printing of what a parse returns.
--
-- The cursor of the parser is the list of bytes from there to the 0 that closes the source; a
-- read behind that 0 is the outcome `overread`. The tests of <ctype.h> and SIZE_MAX are the record
-- Host. A step of the parser that fails keeps the state it reached, since the source goes on
-- after the error of a parameter list.
--
-- Not modelled: tests for null pointers, since an out-pointer has no counterpart; the capacity of
-- the arrays of free spans, which the source does not test either; failures of the host's file
-- operations other than a missing or short file; failures of malloc, realloc and vsnprintf in the parser and the printer, and
-- its frees. The base image's reset and the codec's check and replay of a payload are arguments of
-- the restore. Of the codec the table of objects as a whole, the bindings and record definitions
-- are missing, and so is the storage of decoded code in the payload heap: the decoder here takes
-- the room that it gets for strings as an argument. The allocation of records and code objects,
-- the evaluator, the surface form of code and its packed form, the boot sequence and the shell
-- have no model here.
pub mod Base
pub mod Status
pub mod Heap
pub mod Cellspace
pub mod Slots
pub mod Spans
pub mod Parser
pub mod Payload
pub mod Value
pub mod Objects
pub mod Names
pub mod Codec
pub mod Ir
pub mod Crc32
pub mod Snapshot
pub mod Tests
