-- ===== src/Lib.antt =====
-- Verification of dev_essential: the library a_util (memory, strings, dates and the like) and the
-- library ddl, which describes data by DDL structures and codes it bit by bit.
--
-- Base holds the shared names, Bits the laws of masks and fields of bits.
--
-- Serializer models include/ddl/codec/bitserializer.h and src/ddl/codec/bitserializer.cpp, with
-- swapEndianess of src/memory/memory.cpp. A buffer is a list of bytes, `read` and `write` are the
-- members of BitSerializer, `read_signal` and `write_signal` those of ConverterBase; a write
-- returns the serializer over the new buffer, since the C++ object only points to it. The host is
-- little endian; the branches for a big endian host are not modelled, nor is the debug output
-- formatBits. Words of 64 bits are numbers below 2 ^ 64, size_t too. The value of a variable is its
-- bit pattern; `memory` is the content of the eight bytes that writeSignal reads at its address.
-- Serializer/Read, Merge, PutBack and Write bring the code down to arithmetic on the number that
-- the buffer stands for; Put has the laws of replacing a field of a number.
--
-- Version models `Version` of src/ddl/dd/dd_common_types.cpp.
--
-- Layout models src/ddl/dd/dd_offset_calculation.cpp and src/ddl/dd/dd_typeinfomodel.cpp, which
-- give the elements of a structure their places in the serialized bits and in memory. The object
-- graph is not there: an element carries the info of its type (`none` where the type does not
-- exist), and an update takes the placed element before it and returns the element with its info.
-- `update_elements` is the loop over a structure, `update_struct` the whole update of all elements.
-- The modes that update a part of a structure only, and the guard against a type that holds
-- itself, are not modelled. size_t wraps at 2 ^ 64 wherever the source adds or multiplies in it.
--
-- CodecIndex models the index of src/ddl/codec/codec_index.cpp, its equality and its move to another
-- item of an array, whose offsets wrap at 2 ^ 64 as size_t does.
--
-- SharedMutex models src/concurrency/shared_mutex.cpp: one function for each member, from the flag
-- to the new flag and how the call goes on; Threads runs them from many threads. What runs under the
-- mutex is one step, and a thread that waits may wake at any time, as the C++ library allows.
--
-- Strings models src/strings/strings.cpp on lists of characters; the functions of std::string and of
-- the C library that it calls are written out. Its loops take one more round of fuel than the string
-- has characters: each round goes on behind a character at least. Null pointers are `none` in
-- `compare`; `copy` and `compare_no_case` are for strings that are there.
--
-- Codec models the elements of src/ddl/codec/codec_elements.cpp and their accessors in
-- src/ddl/codec/element_accessor.cpp: the tree that is built over a laid out structure, the layout
-- that an index finds in it, and the values that the accessors read and write with the serializer, or
-- copy where the host's own layout is used. It brings Layout, CodecIndex and Serializer together:
-- Codec/Built and Codec/Whole go from the description of a structure to the values in its buffer.
-- Codec/LeafSearch is the search for the element that holds a leaf; its fuel is one round for each
-- element and one more. Elements whose sizes depend on others, and values as variants, are not
-- modelled.
-- AccessList models the named list of include/ddl/utilities/dd_access_list.h with the observers of
-- include/ddl/utilities/dd_access_observer.h, as the elements of a structure use it in
-- src/ddl/datamodel/datamodel_types.cpp. The shared pointers are places in a store of objects, so
-- that an object can be renamed through any pointer to it, in the list or no longer there. The
-- validator's map is an association list that may be missing. Its keys are strings, or, with
-- HAS_STRING_VIEW, views of the objects' names: then a change of the name of an object in the map
-- changes a key in place, which the library's map does not allow, and the call is `undefined`. `add`
-- is emplace too. Insert, Remove, Rename, Views and Validated are about the single calls, Calls and
-- Runs about all of them and sequences of them, Unvalidated about the list with a validator against
-- the one without.
-- Copies and moves of lists and the events that go on to the validator are not modelled.
-- Path models src/filesystem/path.cpp where the native slash is the forward one; a path is its
-- characters. Path/Hosts has the test for a network host, Path/Elements what append does to the
-- elements, Path/Forms the parent and the last element of any path, Path/Extension the extension, and
-- Path/Canonical the two loops of makeCanonical, with one round of fuel for each position, in which
-- a read before the first character gives `none`. makeRelative and the calls that ask for the
-- working directory are not modelled.
-- DateTime models the conversion between dates and timestamps of src/datetime/datetime.cpp, on the bit
-- patterns of the timestamps. What the source computes in floating point is computed in exact
-- fractions, which agree with it for years below 40000. DateTime/Days has the arithmetic of the
-- calendar, DateTime/March the years that begin in March, which the code counts in.
-- AccessMap models the unordered named map of include/ddl/utilities/dd_access_map.h on the objects
-- and observers of AccessList. What the validator says of other maps is a function that each call is
-- given. A call may return, throw, or follow the end iterator of the map.
pub mod Base
pub mod Bits
pub mod Serializer
pub mod Version
pub mod Layout
pub mod CodecIndex
pub mod SharedMutex
pub mod Strings
pub mod Codec
pub mod AccessList
pub mod Path
pub mod DateTime
pub mod AccessMap
