-- ===== src/Lib.antt =====
-- The encoder of incremental font transfer (IFT): a font is split into patches, a map in the font says
-- which patches a request needs, and patches are brotli streams.
--
-- BitBuffer: ift/common/branch_factor.h, bit_output_buffer.{h,cc} and bit_input_buffer.{h,cc}. The
--   nodes of a sparse bit set are written behind a header byte, and read back. BitOutputBuffer and
--   BitInputBuffer are records with the fields of the classes; `create`, `append`, `to_string`,
--   `open_buffer` (the constructor), `read` and `remaining` are their members. `append_all` and
--   `read_all` call `append` and `read` in a row.
-- SparseBitSet: ift/common/sparse_bit_set.cc. Depth, Decode, Twigs (the filled twigs and nodes), Layers
--   (the state machine that writes a layer: EncodeState, EncodeSymbol, EncodeContext, UpdateState),
--   Nodes (the bases that a layer takes), Encode, and Choose (the branch factor). A set is the list of
--   its values; the map of filled nodes is an association list. The exception of a missing key is
--   `none`, and so is an access through the end of a map or past a vector, which C++ leaves undefined.
-- IntSet: ift/common/int_set.h. The set of values is harfbuzz's hb_set_t, which the record HbSet stands
--   for: its operations and what is documented of them. SortedList fills it with sorted lists.
-- Condition: ift/encoder/activation_condition.{h,cc}. A condition is a conjunction of groups of
--   segments, and a group is a disjunction. `activates` is the meaning of a condition for the
--   segments that are active.
-- GlyphConditions: ift/encoder/glyph_condition_set.h. The condition of each glyph of a font, as a list,
--   and the index from segments to glyphs, as a function. `triggering_segments` is
--   ActivationCondition::TriggeringSegments.
-- EntryGraph: ift/encoder/entry_graph.{h,cc}. The graph of patch map entries for a list of conditions.
--   Nodes has the state and the operations on single nodes, Build has AddMapping and Create, and Sort
--   has TopologicalSort, whose priority queue is a list from which the greatest node is taken. An
--   operation returns the next graph with its value or with an error. `Means` says which requests a
--   node matches, as patch map entries do: by its own sets, and by all or some of its children.
--   The sets of codepoints, features and design space are a parameter, Containers, and the segments
--   a function to their coverage.
-- GlyphPartition: ift/encoder/glyph_partition.{h,cc}. Disjoint sets of glyphs, by union by rank with
--   path compression. Each operation returns a status with the next state, also the const ones,
--   which compress paths and build the cache. `Root` is the root above a glyph, and `Same` the
--   relation that the parents stand for. `assign` is operator=.
-- Brotli: brotli/brotli_bit_buffer.{h,cc} and brotli/brotli_stream.{h,cc}. Numbers are put into a byte
--   vector bit by bit, and a stream puts meta-blocks into that buffer. The bits of RFC 7932 are lists
--   of numbers 0 and 1.
--   Dictionary has insert_from_dictionary; the brotli library's PrefixEncodeCopyDistance is a parameter.
-- FontDiff: brotli/table_range.h, table_differ.h, hmtx_differ.h, loca_differ.h, glyf_differ.h, and the
--   class DiffDriver of brotli/brotli_font_diff.cc. `TableDiffer` is the class with its three
--   implementations; `process_glyphs` is the loop of MakeDiff and `finalize_ranges` its end. The
--   stream is an interface, `Streams`, that BrotliStreams fills with the streams of Brotli; the
--   insertion that compresses may fail and is a parameter. The glyph maps of harfbuzz are functions.
-- UrlTemplate: ift/url_template.{h,cc}. The base32hex and base64url encoders are parameters.
--
-- Numbers are native naturals; the sums and shifts of the source that wrap are written with `% 2 ^ w`.
-- Fuel: `append_loop` of Brotli runs on the number of bits, since a round writes one bit at least;
-- `insert_uncompressed` on the number of meta-blocks, since it splits off a whole one; `expand` of
-- UrlTemplate on the number of bytes of the template, since a round takes one at least. The loop of
-- `to_copy_code` has a round for each code, and that of WindowBitsFor one for each window size.
-- insert_from_dictionary runs on the number of meta-blocks, and MakeDiff on the number of glyphs.
-- Find runs on one more than the number of glyphs, since ranks grow along a path.
-- AddMapping runs three deep, for a conjunction, its groups and their segments. AddChildrenToNode runs
-- on the number of children, of which a round takes 126. TopologicalSort has one more round than there
-- are nodes, since a node is queued when its count becomes 0.
-- TreeDepthFor has 32 rounds, for 32 binary digits; skipping filled nodes has one more round than there
-- are stored twigs, since a round goes to a later one.
--
-- Sorting is insertion sort: std::sort promises no more than the order, and the order of groups
-- of the same size shows only in which of two equal groups is dropped.
--
-- Not modelled: harfbuzz, the brotli encoder, files, protos, floating point (probabilities, and the
-- estimate of tree sizes, which is a parameter), font tables, and the segmentation and compiler that
-- call these parts. Of EntryGraph, ToPatchMapEntries and the optimization are left out; the latter rests on
-- the cost estimates of the patch map format.
pub mod Prelude
pub mod BitBuffer
pub mod SparseBitSet
pub mod IntSet
pub mod Condition
pub mod GlyphConditions
pub mod EntryGraph
pub mod GlyphPartition
pub mod Brotli
pub mod FontDiff
pub mod UrlTemplate
