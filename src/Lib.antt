-- ===== src/Lib.antt =====
-- PBFT-block: a verification library for the consensus core of the repository.
--
-- The program is a node of a permissioned network that agrees on blocks by PBFT. A leader builds a
-- block and sends a request for it; every node that takes the request on sends a pre-prepare, answers
-- pre-prepares with a prepare, commits itself when a quorum has prepared, and lets its chain grow when
-- a quorum has committed with positive votes. A checkpoint then clears what is left of the block.
--
-- The parts, and the files that model them:
--   Text          strings as lists of bytes; Text/Itoa is strconv.Itoa, Text/Hex common/bytes.go
--                 and common/types.go, Text/Base64 encoding/base64
--   Msg           the structs of eth/pbft-core.go and eth/worker.go, and what a handler starts with
--                 `go` or posts on an event mux (Effect)
--   Worker        the state: `worker` of eth/worker.go with the package variables of
--                 eth/pbft-core.go, `Initt` of eth/star_up.go, accessors; Worker/Quorum the thresholds
--   Pool          possibleValidBlock and blockbeats of eth/pbft-core_basic.go (PutPVBAndBeats,
--                 DeletePVBAndBeats and the rest); Pool/Laws by lookup, Pool/Invariant
--   Cert          certStore: prePrepared, prepared, committed, GetValidResFromCommit,
--                 getConsensusTxExes, removeOldConMsg; its children prove what they decide
--   Handlers      RecvRequest, RecvPrePrepare, RecvPrepare, RecvPrepare_notTransfer, RecvCommit and
--                 RecvCheckpoint of eth/pbft-core.go, with the forwarding of
--                 eth/pbft-core_basic.go and the stand-ins for transactions
--   Mining        StartConsensus, SendRequest, expirationLoop, JudgeSync, ResetConData
--   Mined         the current work of eth/worker.go (makeCurrent, pending) and the ring of mined
--                 blocks (newLocalMinedBlock, isBlockLocallyMined, logLocalMinedBlocks)
--   Miner         eth/miner.go: SetExtra, SetEtherbase, Pending, GetCurLeader
--   Node          a node by its events: a run is any list of them with their times; Node/Agreement
--                 is about several nodes, Node/Certificates about what a node collects,
--                 Node/Round about one round from the request to the block
--   Pns           pns/PNService.go: which nodes author.json permits, and their keys
--   Startup       ReadandWrite of eth/star_up.go: the files that a node writes for itself.
--                 Startup/Boot: NodeKey and parsePersistentNodes of eth/utils.go, InitP2PNode,
--                 StartP2PNode and Initt, as main.go calls them; Startup/Main: the loops of main.go,
--                 and the first round of a network
--   Network       the protocol around a node. Network/Wire: the structs of eth/peer.go and the
--                 libraries that encode and sign; Network/Envelope: eth/MsgED.go, the Send methods
--                 of eth/peer.go and Sign, Verify and Ecrecover of crypto-gm/crypto.go;
--                 Network/Peers: peerSet, and the head of a peer; Network/Manager: ProtocolManager of
--                 eth/handler.go;
--                 Network/Broadcast: its loops, with Returnadd of eth/utils.go;
--                 Network/Dispatch: handleMsg, whose child Traffic takes packets in any order;
--                 Network/Sessions: Run and the loop `handle`, as sessions come and go, whose child
--                 Errors is the channel of sendHandleMsgRes and closeChan;
--                 Network/Agreement: the nodes of one network under such traffic
--   Common        tests on numbers, lists, sets of voters, Go maps as association lists
--   Tests         the theorems at a concrete network of four nodes, and runs of the definitions
--
-- How state and operations correspond. A handler is a function of the time, the message and the
-- Worker to a Run: the node after it, its effects in order, and its reply. The parts of a long
-- handler are functions of their own, each with the guards of its lines, and a call reads in the
-- order of the source. A panic in a handler with `recover` is the error `caught_panic`; in
-- RecvRequest, which has none, it is the reply `panic`. A handler is one step of the node: the
-- source holds its locks for shorter stretches, so that what is proved of runs is about handlers that
-- do not overlap. A uint64 that grows wraps at 2^64 (`u64`); `len` and counters are plain numbers.
--
-- The parts meet so: what a handler posts (Effect) is what a broadcast loop signs and sends; a packet
-- is read under the key that the permission service has for its peer; what it opens to is one
-- event of the node. SM2, SM3, ASN.1, RLP and JSON are the records `Sm2` and `Codec` of functions;
-- `IsLawful` says what is relied on of a signature scheme, and the laws of an encoding are
-- hypotheses about the message at hand. The random bytes of a signature are an argument. A goroutine
-- that handleMsg starts is one step, and a panic in it ends the process.
--
-- Bounds. Every recursion is on a list of messages, entries or events, or on the digits of a number,
-- for which 20 are enough for each uint64. The loop of logLocalMinedBlocks runs on fuel, the
-- difference of its two numbers, and Mined/Report says that this is enough. A property
-- on runs asks only that a commit names a height below 2^64 (`InRange`), which its type gives.
--
-- Not modelled: sleeping, logging and the files under LogInfo; the p2p stack below the packets,
-- cryptography and the other copied libraries; the order in which Go walks a map, which is the
-- order of the list here; the reading and decoding of configuration files; agents, the update
-- loops and the parallel execution of eth/worker.go, most of which is commented out; the timer of
-- randomwait_StartConsensus, whose calls are unreachable. Between the handlers a message stands
-- as the value whose JSON text the source posts; a signature in a vote is the name of the node,
-- as it is in the source.
pub mod Common
pub mod Text
pub mod Msg
pub mod Pns
pub mod Startup
pub mod Network
pub mod Worker
pub mod Pool
pub mod Cert
pub mod Handlers
pub mod Mined
pub mod Miner
pub mod Mining
pub mod Node
pub mod Tests
