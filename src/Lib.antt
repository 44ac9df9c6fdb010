-- ===== src/Lib.antt =====
-- metal_fs: near-storage compute on an FPGA that is used as a file system. The metadata of the
-- file system (src/metal-filesystem, in C) lives in an LMDB environment: which blocks are free,
-- which inodes exist, what the directories hold. The driver (src/metal-driver) offers it through
-- FUSE. A pipeline (src/metal-pipeline) streams a file or a buffer through operators on the FPGA: the
-- host gives the FPGA jobs (src/metal-filesystem-pipeline lays out the one with a file's extents).
-- The FPGA (targets/SNAP/_internal/action/hw/hls/hls_action) loads the extents as an extent map, sets
-- its stream switch and its operators, cuts a transfer of a file's bytes into transfers of blocks,
-- and gives the data mover and the NVMe controller their commands.
--
-- Files and the code they are about:
--   Lmdb                  the databases, an interface with the documented behaviour of LMDB
--     Lmdb/Order          the order of LMDB's keys, by bytes
--     Lmdb/Assoc          an implementation of the interface, an association list
--   Fs/Types, Fs/State    the structs and enumerations; a transaction; results of the C functions
--   Fs/Heap               src/metal-filesystem/src/heap.c
--   Fs/Extent             src/metal-filesystem/src/extent.c
--     Fs/Tiling           extents that cover the storage, and the changes that keep that
--     Fs/Space            extents together with the heap of the free ones
--     Fs/View             a transaction seen as such
--     Fs/Extent/Start, Reserve, Grow, Free, Misplaced (on Effect)
--   Fs/Inode              src/metal-filesystem/src/inode.c: inodes and files, and meta.c
--   Fs/Directory          src/metal-filesystem/src/inode.c: directories
--     Fs/Directory/Listing, Drop    the entries as a finite map, and the removing loop
--     Fs/Directory/Entries          the operations
--     Fs/Directory/Others           what a change of one inode leaves
--   Fs/FileData           src/metal-filesystem/src/metal.c: expanding, writing, reading, truncating
--     Fs/FileData/Write, Grow
--   Fs/Path               dirname and basename of the C library, as POSIX describes them
--     Fs/Path/Components  on paths that are written from their components
--   Fs/Namespace          src/metal-filesystem/src/metal.c: the functions on paths
--     Fs/Namespace/Resolve, Change, Open, Others
--   Fs/Storage            src/metal-filesystem/src/storage_in_memory.c
--     Fs/Storage/Copies, Walk, Buffers, RoundTrip
--   Fs/Backend            the interface of storage.h, and the calls that src/metal-filesystem/src/metal.c
--                         makes of it
--     Fs/Backend/Contents
--   Fpga/Types            src/metal-pipeline/include/metal-pipeline/fpga_interface.hpp, mtl_op_mem.h
--   Fpga/Extmap           mtl_extmap.cpp
--     Fpga/Extmap/Seek
--   Fpga/Transfer         mtl_op_mem.hpp with NVME_ENABLED
--     Fpga/Transfer/Cover, Supply
--   Fpga/Streams          mtl_op_mem.cpp: from the elements of a transfer to the commands
--     Fpga/Streams/Load, Store, Preload
--   Fpga/Jobs             mtl_jobs.cpp: the job that loads an extent map
--     Fpga/Jobs/Words, Mapped       with the host's mapExtents
--   Fpga/Peripherals      axi_switch.cpp, axi_perfmon.cpp, and the jobs that write registers
--     Fpga/Peripherals/Switch       with the host's configureSwitch
--     Fpga/Peripherals/Options
--   Fpga/Action           operators.cpp: a run of the operators
--   Fpga/Process          mtl_jobs.cpp: process_action
--     Fpga/Process/Enabled          with the host's enable mask
--   Fpga/Endian           mtl_endian.h: words in a memory line
--     Fpga/Endian/Words
--   Pipeline/MapJob       src/metal-filesystem-pipeline/src: the memory that mapExtents lays out
--   Pipeline/Card         src/metal-pipeline/src/snap_action.cpp; exceptions; DataSource and DataSink
--   Pipeline/Stages       src/metal-pipeline/src/pipeline.cpp: configureSwitch
--   Pipeline/Run          src/metal-pipeline/src/pipeline.cpp and operator_context.cpp
--   Pipeline/FileSource, FileSink   src/metal-filesystem-pipeline/src: files as source and sink
--   Pipeline/Runner       src/metal-pipeline/src/snap_pipeline_runner.cpp, and the loop of
--                         src/metal-driver/pipeline_loop.cpp
--     Pipeline/Runner/Loop          the loop over a source that comes to its end
--   Pipeline/Profile      src/metal-pipeline/src/profiling_pipeline_runner.cpp: the streams to watch
--   Pipeline/Operator     src/metal-pipeline/src/operator.cpp: the options of an operator
--   Pipeline/Pagefile     src/metal-filesystem-pipeline/src/metal_pipeline_storage.cpp: the page files
--   Driver/Combined       src/metal-driver/combined_fuse_handler.cpp: which handler gets a FUSE call
--     Driver/Combined/Dispatch
--   Driver/AgentPool      src/metal-driver/agent_pool.cpp and operator_agent.hpp: agents and their links
--     Driver/AgentPool/Chain        the pipeline that is found
--   Driver/Files          src/metal-driver/filesystem_fuse_handler.cpp
--     Driver/Files/RoundTrip
--   Driver/Operators      src/metal-driver/operator_fuse_handler.cpp: the directory of the operators
--     Driver/Operators/Reads
--   Driver/SocketFile     src/metal-driver/socket_fuse_handler.cpp: the link to the driver's socket
--   Driver/AgentSource, AgentSink   src/metal-driver/agent_data_source_context.cpp and
--                         agent_data_sink_context.cpp: an agent as source and sink
--     Driver/AgentSource/Datagen
--     Driver/AgentSink/Exchange, Answers
--   Driver/Agent          src/metal-driver/operator_agent.cpp: an agent's input, output and options
--   Driver/Options        src/metal-driver/pseudo_operators.cpp, and the options of an operator
--   Driver/Builder        src/metal-driver/pipeline_builder.cpp: the operators for the agents
--     Driver/Builder/Resolve, Filled, Ready
--   Driver/Placeholder    src/metal-driver-placeholder/operator_agent.cpp: the program that stands for
--                         an operator
--     Driver/Placeholder/Rounds, Talk, Mounts
--   Tests                 concrete states, and each theorem applied to one
--
-- A C function mtl_f is the function f on a transaction (Txn), which holds the contents of the
-- databases. Its result is `ok`, an error code, or `fault`: a failed assertion, or undefined
-- behaviour such as reading through a pointer that was never set. A function that ends its
-- transaction says how (Finish in Fs/Namespace). A `uint64_t` is a number with its wrap-around
-- written out (add64, sub64, mul64).
--
-- A function of the host that can throw has an Outcome: `done`, the exception, or `aborts` for a
-- failed assertion and a store out of bounds. Its World is the metadata and the jobs that were given
-- to the card; what the card answers is a parameter. A stage on the FPGA is a function from what its
-- input streams bring, in order, to what it writes into its output streams; it is `none` where the
-- hardware waits for ever. Registers are the writes to them, in order; what a register or an
-- interrupt line holds when it is read is a parameter, and so are the statuses of the data mover.
-- The switch goes by what is in its mapping
-- registers when a commit is written to its control register, as its vendor documents it. Memory is
-- lines of 64 bytes; a job's memory behind what the host has written is a parameter.
--
-- LMDB is a parameter, a record of operations and of the laws that its documentation states; the
-- databases are opened without MDB_INTEGERKEY, so the laws on the order of keys are about their
-- bytes. Not modelled are LMDB's errors other than a missing key, and that a pointer into a
-- database is valid only until the next write. `int` fields of an inode are numbers.
--
-- Fuel: resolve_inode makes one call per directory, and gets one more than the path has
-- characters; expand_loop gets as many rounds as blocks are wanted, since each round must add a
-- block or an assertion fails; issue_partial_transfers gets the number of blocks in the range and
-- three more; walk gets as many rounds as there are extents; run_loop gets as many runs as an agent
-- has requests, or as buffers hold the length to be generated; follow gets more steps than the rank of any agent, a number that falls
-- along each link.
--
-- A write or a read of Fs/FileData returns the call of the storage backend that it makes;
-- Fs/Storage is the backend in memory, where a buffer is a function from indices to bytes, and
-- Fs/Backend puts them together. The driver has, for each agent, the requests that it will
-- send, and the messages that it has received and sent, in their order; the program that stands for
-- an operator has the messages that it has sent and received. The parser of command
-- lines (cxxopts), realpath and the files that the driver reads are parameters.
--
-- Not modelled: allocating and freeing memory, the frame around process_action (hls_action.cpp),
-- the hooks that the profiling runner has around a run (they are parameters of the runner) and the
-- results of profiling, the JSON description of operators, sockets and processes, the image
-- and build tooling.
mod Base
pub mod Lmdb
pub mod Fs
pub mod Fpga
pub mod Pipeline
pub mod Driver
pub mod Tests
