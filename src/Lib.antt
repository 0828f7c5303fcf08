-- ===== src/Lib.antt =====
-- DeepINC: gradient synchronization between workers, which cut tensors into partitions and push and
-- pull them, and servers, which add the workers' pushes up and answer the pulls.
--
-- The program's parts and where they are modelled:
--   Base                      lists, maps, integers, results and tests on native numbers
--   Common                    deep_inc/common/common.h and common.cc, and the command codec of
--                             deep_inc/server/server.h: stages, sizes, alignment, command numbers
--   Worker.State              deep_inc/common/common.h: TensorTableEntry is Task, BPSContext is Context
--   Worker.ReadyTable         deep_inc/common/ready_table.cc: which keys all devices have announced
--   Worker.ScheduledQueue     deep_inc/common/scheduled_queue.cc: addTask, getTask, reportFinish, reset
--   Worker.Partition          deep_inc/common/operations.cc: PartitionTensor, the keys of InitTensor
--   Worker.Stages             deep_inc/common/operations.cc: GetPushQueueList, GetPullQueueList,
--                             byteps_lazy_init
--   Worker.Init               deep_inc/common/operations.cc: InitTensor
--   Worker.KeyEncoder         deep_inc/common/global.cc: EncodeDefaultKey and the hash functions
--   Worker.Declare            deep_inc/common/global.cc: IsTensorDeclared, ReDeclareTensor
--   Worker.Trace              deep_inc/common/global.cc: SetProfileFlag, PushPullSpeed
--   Worker.Tasks              deep_inc/common/core_loops.cc: FinishOrProceed, RunCoordinateLoopOnce,
--                             and EnqueueTensor of deep_inc/common/operations.cc
--   Worker.Nccl               deep_inc/common/nccl_manager.cc: NcclManager and NcclGroupEntry
--   Worker.Loops              deep_inc/common/core_loops.cc: PostNcclCalls, the NCCL loops, the loops
--                             that copy and sum, and those that push and pull
--   Server.State              deep_inc/server/server.h and msg.h: the server's globals as a record
--   Server.Queue              deep_inc/server/queue.h: PriorityQueue
--   Server.Load               deep_inc/server/server.cc: GetThreadID
--   Server.Responses          deep_inc/server/server.cc: SendPushResponse, SendPullResponse
--   Server.Engine             deep_inc/server/server.cc: DeepIncServerEngineThread
--   Server.Handler            deep_inc/server/server.cc: DeepIncServerHandle
--   Server.Start              deep_inc/server/server.cc: init_global_env, start_server
--   Server.Rounds             proofs on whole rounds: initial pushes, pushes, the engine, the pulls
--   Compressor.Scalar         the arithmetic of float and double, a parameter
--   Compressor.Random         deep_inc/common/compressor/utils.h: the generator, RoundNextPow2
--   Compressor.Bits           deep_inc/common/compressor/utils.h: BitWriter, BitReader
--   Compressor.Elias          deep_inc/common/compressor/utils.h: EliasDeltaEncode, EliasDeltaDecode
--   Compressor.Dithering      deep_inc/common/compressor/impl/dithering.cc
--   Compressor.Onebit         deep_inc/common/compressor/impl/onebit.cc
--   Compressor.Sparse         deep_inc/common/compressor/impl/topk.cc and randomk.cc
--   Compressor.Feedback       deep_inc/common/compressor/error_feedback.cc, momentum.cc, and their
--                             subclasses in impl/
--   Compressor.Registry       deep_inc/common/compressor/compressor_registry.cc, HyperParamFinder of
--                             utils.h and the constructors of impl/
--   Examples                  concrete runs
--
-- How they interact: InitTensor gives a tensor its keys and pushes every part once, which the server
-- takes as initial pushes. EnqueueTensor cuts a tensor into tasks, and a task goes through the queues of
-- its stages; FinishOrProceed moves it on and calls back when the last part is done. A push reaches
-- DeepIncServerHandle under a key that the encoder has made; the handler puts a message into the queue
-- of the key's engine thread, and that thread adds up and answers the pulls that wait.
--
-- Code that may stop returns a Result: a failed check, an index out of range, a null pointer. State is
-- passed explicitly; a method under a mutex is one function. A pointer to a shared object is the
-- object's number. Memory of the server is lists of bytes, and an answer holds the bytes that were there
-- when it was sent.
--
-- Fuel: the loops of PartitionTensor and InitTensor run on one unit more than the size, since every
-- round takes at least one byte when the bound is positive and below 2 ^ 32; the digits of a number run
-- on the number plus one; a message moves through a heap in at most as many rounds as there are
-- messages. The decoder of dithering runs on one round more than the bits that it is told;
-- its count of zeros may take 2 ^ 31 rounds, after which the code's `int` overflows; a decorated compressor is
-- made with three rounds, since each round takes one of the three types away.
--
-- Taken as parameters: the compressors and the reducer's sum, which the server sees as an interface; the
-- arithmetic of the scalars, the library's heap and its reading of numbers from text; the
-- number of workers and the key ranges of ps-lite; CUDA, the shared memory, `std::hash`, the clock and
-- the ready events. The calls that the loops make of NCCL, of CUDA's copies and of the communicators
-- are recorded in order, and so are the requests to ps-lite; what the loop of COMPRESS leaves in a
-- task is a parameter.
--
-- Simplifications: `std::sort` is a stable insertion sort by the same comparison; the heap of the
-- server's queue moves its messages as libstdc++ does; std::log2 is exact, as it is below
-- 2 ^ 48; the ratio of the mixed hash mode is
-- an exact fraction; an `int` is kept as its bits, or what overflows it is a stop; the memory of a key's
-- store is given or refused by a parameter; the
-- hash functions read the characters of their string although it is gone; branches under
-- is_engine_blocking_, which is never set, and all output to the log are left out.
--
-- Not modelled: the loops that compress and decompress, the rest of the CPU reducer, half floats,
-- communicators, NcclManagerExpr, shared memory, the PyTorch adapter and the start of a worker,
-- which are to follow or only pass on to other systems.
pub mod Base
pub mod Common
pub mod Worker
pub mod Server
pub mod Compressor
mod Examples
