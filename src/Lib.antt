-- ===== src/Lib.antt =====
-- LumoDB is an embedded store of objects under (column, key) pairs and of rows. Objects live in an
-- append-only file values.lumov; index.lumoi, mapped into memory, is an open-addressing hash table
-- that leads from a pair to the newest record. Rows hold keys with values of their own; they live
-- in sharded append-only files, as blocks, and many threads share the mapped index that leads from
-- a row to its newest block. This development models the object store, how it opens and recovers,
-- the blocks of rows, and the threads at the row index.
--
-- Status is src/lumodb/status.h. Hash is src/lumodb/hash.cpp and ObjectIndexHash of
-- src/lumodb/database.cpp. Format is the object part of src/lumodb/storage_format.h, byte by byte;
-- Format.Rows has the structs of the row files, IsValidRowBlockHeader and ShardForRow. File is
-- ReadAllAt, WriteAllAt and WriteVAllAt of src/lumodb/file.cpp by their outcomes, and File.Loops
-- the loops of ReadAllAt and WriteVAllAt against the kernel's answers to their calls. Probe is the
-- probe loop that every table of src/lumodb/database.cpp repeats, with its theory: what a table
-- holds, where a probe lands, and what a write changes. Capacity is RoundUpPowerOfTwo and the
-- growth loop of EnsureCapacityForInsert. Objects is the reading half of class Database::Impl of
-- src/lumodb/database.cpp (ReadValueAt, RecordMatches, FindBucket, GetStruct, GetMany) and Writer
-- its writing half (WriteStructs, ResizeIndex, EnsureCapacityForInsert and the placing loops).
-- Recovery is HasValidIndexLayout and RebuildIndexFromValues, Migration the loops of
-- MigrateLegacyValueFile, Opening its exchange of files, OpenValueFile, OpenIndexFile, Flush,
-- Close and the object half of OpenInternal, and Text EscapeText and HexBytes, all of
-- src/lumodb/database.cpp. A function of the model has the name of the C++ function in snake case;
-- helpers for the bodies of loops are named for what they do.
--
-- A file is the list of its bytes, the mapped index is the record Index, and Store holds the
-- members of Impl that object storage uses. The record Objects.Lookup.Models relates a store to
-- the abstract map of objects that it holds.
--
-- Machine words wrap around explicitly. The loop of RoundUpPowerOfTwo has 61 rounds of fuel and
-- the growth loop 66: after 60 shifts from 16, or 64 doublings, the word is 0 and stays 0, so a
-- loop that uses up its fuel never ends. The loops over a file have a round for each of its bytes
-- and one more: a round that moves on moves on by a byte at least. Fuel that runs out gives the
-- fault endless_loop. Reading through an unmapped index is the fault null_mapping, and reading
-- behind a vector the fault out_of_bounds. Theorems about success rule them out.
--
-- Parameters: Device says which kernel calls of one operation fail (Kernel adds those of opening
-- and closing), and how many bytes a stopped write has written; LoadFactor is the arithmetic in
-- double with maxLoadFactor, of which IsLoadFactor asks what IEEE division gives for a factor
-- between 2 ^ -slack and 1.
--
-- Rows.Layout has BuildRowBlockLayout and the bytes that WriteRowStructs writes, Rows.Blocks
-- ReadRowValueAt and FindValueInRowBlockAt, and Rows.Update has LoadRowBlock,
-- DecodeRowBlockEntries, the end of LoadRowEntries and the merge of PutRowStruct. Rows.Protocol
-- has InsertOrUpdateRowBucket and FindRowBucket as threads run them, with LoadRowBucketSnapshot,
-- StoreRowBucketData and (in Rows.Shared) RowBlockMatches: a thread's program counter with its
-- locals is a value of Pc, one atomic access is a Move, and a Step moves any thread. Rows.Slots
-- has the counters of ReserveRowIndexInsertSlot, IncrementRowItemCount and
-- ReleaseRowIndexInsertSlot in the same way. All accesses are taken to be sequentially consistent,
-- the table does not grow, and the row value files are a parameter: what stands at an offset,
-- which appends never change.
--
-- Not modelled: the growth, the rebuild and the opening of the row index and the composition of
-- the row operations from the parts above, statistics and dumps, the checks of OpenInternal on
-- directories and row options, the forwarding class Database with its ownership of resources,
-- tests and benchmark.
pub mod Base
pub mod Status
pub mod Hash
pub mod Format
pub mod Probe
pub mod Capacity
pub mod File
pub mod Objects
pub mod Writer
pub mod Recovery
pub mod Migration
pub mod Opening
pub mod Text
pub mod Rows
pub mod Tests
