-- ===== src/Lib.antt =====
-- The fuse_ext2 file system: an ext2 image, mapped into memory by a server, read and written by a FUSE
-- client through remote calls.
--
-- Parts, and the files that model them (paths from the root of the repository):
--   Ext2.Layout      fuse_ext2_commons/src/ext2.h: the packed structures on the device
--   Ext2.Geometry    fuse_ext2_commons/src/ext2.c: ext2_create, ext2_get_block, the sizes
--   Ext2.Groups      ext2.c: ext2_get_block_group, ext2_get_root_inode, ext2_get_inode
--   Ext2.BlockMap    ext2.c: ext2_get_inode_block_entry, ext2_find_block_entry
--   Ext2.Directory   ext2.c: ext2_list_inode, ext2_find_inode, ext2_get_element_inode, ext2_list_dir
--   Ext2.Data        ext2.c: ext2_read_inode_data, ext2_write_inode_data
--   Ext2.Data.Store  several files as one store: each byte of each file by itself
--   Ext2.Resize      ext2.c: ext2_resize_inode_data
--   Ext2.FreeBlocks  ext2.c: ext2_get_free_blocks and what it calls
--   Bitarray         fuse_ext2_commons/src/bitarray.c, bitarray.h
--   Strings          fuse_ext2_commons/src/string.c (Split: string_split; Text: the others)
--   Log              fuse_ext2_commons/src/log.c, log.h
--   Temporal         fuse_ext2_commons/src/temporal.c: the time of day as text
--   Error            fuse_ext2_commons/src/error.c: error_show
--   Collections      fuse_ext2_commons/src/collections/list.c, node.h (Linked: the cells on a heap;
--                    View: the sequence that the directories use)
--   Rpc              the messages of fuse_ext2_commons/resources/rpc_layer.proto
--   Rpc.Structs      fuse_ext2_commons/src/rpc_layer.pb-c.h: the structs and their layout
--   Rpc.Messages     rpc_layer.pb-c.h: the INIT values, and the messages that client and server fill
--   Rpc.Descriptors  fuse_ext2_commons/src/rpc_layer.pb-c.c: the tables (Tables: their types)
--   Rpc.Methods      rpc_layer.pb-c.c: the functions of each message
--   Rpc.Service      rpc_layer.pb-c.c and .h: the service and the stubs (Remote: a call, from the stub
--                    to the handler and back; Session: many calls)
--   Rpc.Library      protobuf-c and its RPC library, as parameters with what is documented of them
--   Server           fuse_ext2_server/src/ext2_server.c: ext2_service__* and ext2_server_create (Main: main and
--                    ext2_server_run)
--   Client           fuse_ext2_client/src/fuse_client.c: fuse_ext2_* (Main: main)
--   System           a request of the client, the service's answer, the client's result (Getattr,
--                    Readdir, Write: one operation each; Session: writes and a read; Session.Paths: with
--                    the lookups of their paths; Session.Answers, Session.Mixed: requests in any
--                    order; Session.Fuse, Session.Operations: FUSE operations in any order, over
--                    the stubs)
-- Base holds what they share: tests on numbers, the cuts of C integers, lists, the results of a run,
-- and the memory. Laws files and the files under Ext2/Data, Ext2/Directory and Collections/Linked (but
-- for Whole, which has the functions over a whole list) hold proofs, as do Ext2.Geometry.Mount,
-- Ext2.Groups.Same, Ext2.FreeBlocks.Search, Server.Started, Server.Bytes, Server.Main.Turns, Server.Main.Exits, Client.Returns,
-- Client.Stray, Rpc.Messages.Typed, Rpc.Service.Session, Log.Lines and the files under System; Tests
-- holds a small device with one file, a library that packs messages, runs on them, and the theorems
-- there.
--
-- A function ext2_foo, bitarray_foo or ext2_service__foo of the source is foo or service_foo here. The
-- device is a memory, a function from addresses to bytes, which functions take and, when they write,
-- return; a pointer is an address, NULL is none. A pointer to a structure is its address, and its
-- fields are decoded at the moment of the read. uint16_t and uint32_t values are cut by u16 and u32
-- where the source stores or passes them. A run gives ok, fault (a read through NULL, a division by
-- zero, an access past an array) or out_of_fuel.
--
-- Fuel: the loops over a range are structural. The copy loops have the size plus one, enough because
-- each round but the last copies at least one byte; string_split has the length of the text plus one,
-- since each token is shorter; the loop over directory records has the size of the block plus one,
-- enough when no record has length 0; the loop for the offset of a group has the number of the group
-- plus one; the walks over a linked list have its number of elements plus one. The dispatch loops of
-- the client and of the server run over a list of what each run brings.
--
-- Not modelled: malloc that fails, and free outside the linked lists; the bounds of the mapping; the
-- overflow of int and long; powl, taken as the exact power; ext2_add_clusters and
-- ext2_remove_clusters, which no file defines and which are parameters of a write; protobuf-c and its
-- RPC library, which are not part of the repository and are parameters (that a message which conforms
-- to its descriptor is unpacked as it was packed, and which function is called for a method, are
-- hypotheses); rpc_layer__remote_ext2__init, which is never called; sockets and FUSE;
-- the clock, strftime and vprintf of the C library, whose answers come as
-- parameters.
pub mod Base
pub mod Bitarray
pub mod Strings
pub mod Collections
pub mod Ext2
pub mod Log
pub mod Error
pub mod Temporal
pub mod Rpc
pub mod Server
pub mod Client
pub mod System
mod Tests
