-- ===== src/Lib.antt =====
-- UtispaceChain: a model of the consensus engine of the chain, with its supporting parts.
--
-- UtispaceChain is a permissioned block chain node in C++. The part that decides which blocks the
-- nodes agree on is the PBFT engine in libpbftseal: a leader posts a prepare request for a block, the
-- nodes execute it and broadcast sign requests, a quorum of these makes each node broadcast a commit
-- request, and a quorum of commits makes it hand the block on, with the signatures, to the chain. A
-- node that sees no progress asks for a view change, which gives the lead to another node. Every
-- entry point of the engine takes one lock, so the engine is a state and a set of operations on it.
--
-- The files, and the code that they follow:
--
--   Prelude           names shared by all files; tests on numbers, lists, finite maps
--   Rlp/Integer       integers in RLP: libdevcore/CommonData.h (bytesRequired), libdevcore/RLP.h
--                     and RLP.cpp (pushInt, append(bigint))
--   Rlp/Reader        an integer item read back: libdevcore/RLP.h and RLP.cpp (requireGood, isInt,
--                     length, payload, toInt), CommonData.h (fromBigEndian), vector_ref.h (cropped)
--   Rlp/Stream        RLPStream of libdevcore/RLP.h and RLP.cpp: append, appendList, noteAppended, out;
--                     Tree has the encoding of nested items that it refines
--   Rlp/Item          an item read: actualSize, sizeAsEncoded, items, toBytes, toHash, the strictness
--   Rlp/Index         RLP::operator[] with the cache of the last item read, and its theorems
--   Nodes             the node table: libcv/NodeConnParamsManager.cpp (getPublicKey, getIdx,
--                     getMinerNum, getAccountType, getGodMiner, getAllNodeConnInfo)
--   QueueSet          QueueSet of libdevcore/Common.h; Laws has its theorems
--   NonceCheck        the replay check of transactions, libcv/NonceCheck.h and NonceCheck.cpp; Window
--                     has its theorems
--   TransactionQueue  the members, insertion and removal: libcv/TransactionQueue.h and
--                     TransactionQueue.cpp. Import has import, manageImport, drop, dropGood, clear,
--                     topTransactions, waiting and maxNonce; Future makeCurrent and setFuture; Verifier
--                     the queue of unverified transactions
--   StateDb/Memory    libdevcore/MemoryDB.h and MemoryDB.cpp
--   StateDb/Overlay   libdevcore/OverlayDB.h and OverlayDB.cpp over an interface to LevelDB
--   StateDb/Nibbles   nibble, hexPrefixEncode, keyOf, isLeaf of libdevcore/TrieCommon.h and
--                     TrieCommon.cpp; Slices has sharedNibbles and the members of NibbleSlice
--   Pbft/Msg          the messages, libpbftseal/Common.h
--   Pbft/Wire         streamRLPFields and populate of the messages, libpbftseal/Common.h
--   Pbft/State        the members of class PBFT, libpbftseal/PBFT.h, its peers and its surroundings
--   Pbft/Peers        broadcastMsg, broadcastFilter, broadcastMark, clearMask
--   Pbft/Caches       isExist..., add..., delCache, delViewChange, collectGarbage
--   Pbft/Leader       quorum, getLeader, isLeader, getMinerList, resetConfig
--   Pbft/Sending      signHash, checkSign, broadcast...Req
--   Pbft/Commit       checkAndCommit, checkAndSave, backupMsg
--   Pbft/ViewChange   checkTimeout, checkAndChangeView, handleViewChangeMsg, changeViewForEmptyBlock...
--   Pbft/Prepare      handlePrepareMsg, recvFutureBlock, handleFutureBlock, reHandlePrepareReq
--   Pbft/Handlers     handleSignMsg, handleCommitMsg, handleMsg
--   Pbft/BlockSign    checkBlockSign
--   Pbft/Engine       initEnv, generateSeal, generateCommit, shouldSeal, reportBlock, and the runs
--   Pbft/Invariant    the invariant of the engine and its preservation by each operation
--
-- All functions of Pbft are those of libpbftseal/PBFT.cpp and PBFT.h, under their names in lower case.
-- The children of a module hold the theorems about it; the modules named Examples hold the
-- concrete runs.
--
-- How the code is represented. A member that a function changes is a field of State that the function
-- returns changed; the return value, where a caller reads it, is a second component. Hashes, keys and
-- signatures are numbers, a byte string is a list of numbers, and u256 arithmetic wraps at 2^256. An
-- unordered map is a list of pairs with distinct keys in use, of which no theorem uses the order. A
-- call out of the engine (m_onSealGenerated, addBlockCache, m_onViewChange) adds an Event. What the
-- engine gets from outside is a parameter: Net holds what is fixed while the node table does (the
-- table and the last block's number that the god mode compares, the own key, signing, verifying,
-- hashing), and World holds what one call reads (the clock,
-- checkBlockValid, connectedness, the view timeout, which the code computes in floating point). No
-- theorem assumes anything of these but what it states. Each step of a run may see another World.
--
-- All loops are structural recursion over the lists that they run through or the number of their
-- rounds. The byte count of an integer is on Acc. The loop over the items of an RLP list is on fuel,
-- the length of the list in bytes, which is enough since every item takes a byte.
--
-- A run of the engine takes each packet as decoded, as one with an unknown id, or as one that fails to
-- decode; Pbft/Wire has the decoding of the bytes by itself. The backup database holds the bytes that
-- Pbft/Wire makes of a request. An `int` or `unsigned` of 32 bits keeps its wrap-around where a count or
-- an index of the code has one.
--
-- Not modelled: the queue between the network thread and the engine, logging, statistics and
-- condition variables, the opening of the databases, how the node table is updated from the system
-- contract, that the transactions queued for later stay consistent with their index, the trie, the
-- execution of blocks, virtual machine, network and RPC. LevelDB, the sender of a transaction and the
-- checks of the chain on one are parameters.
pub mod Prelude
pub mod Rlp
pub mod Nodes
pub mod QueueSet
pub mod TransactionQueue
pub mod StateDb
pub mod NonceCheck
pub mod Pbft
