-- ===== src/Lib.antt =====
-- x6losim simulates an IEEE 802.15.4 network: virtual nodes connect over TCP, register, ask whether
-- the channel is clear and hand over frames, which the simulator sends on to a multicast group after
-- their time on the wire, unless they collide. This library models the simulator of src/, written in
-- C++, and proves what its parts do.
--
-- The parts and their files:
--
--   Prelude   shared names; Fault: how a call can end other than by returning
--   Clock     utils/time.cpp: the choice of a clock, comparison, subtraction and addition of times
--   Checksum  sim/DeviceNode.cpp, generate_checksum
--   Wire      x6losim_interface.h and the message construction of sim/DeviceNode.cpp: the header in
--             memory, the byte order functions, the four messages that the simulator sends, and in
--             Wire/Messages those that a node sends
--   Packet    sim/Simulator.hpp and sim/DeviceNode.cpp, NetSimPacket
--   Store     the members of PhysicalMedium_pimpl (sim/PhysicalMedium.cpp) and DeviceNode_pimpl
--             (sim/DeviceNode.cpp): the state of one medium, with a heap of nodes, and the monad of
--             calls that change it or end in a fault
--   Timer     sim/DeviceNode.cpp, DeviceNodeTimer
--   Membership  sim/PhysicalMedium.cpp: addNode, registerNode, deregisterNode and the two lists
--   Node      sim/DeviceNode.cpp: construction, the three state classes, the handlers; Node/Release
--             and System/Release: the destructor
--   Reader    sim/DeviceNode.cpp, readMsg
--   Medium    sim/PhysicalMedium.cpp: processCcaList, txCollisionCheck, txPacket, processTxList,
--             checkNodeRegistrationTimeout, processPollerEvents; Medium/Construction and
--             Medium/Destruction: the constructor and the destructor
--   Thread    sim/PhysicalMedium.cpp: interval, run and stop; in Thread/Points run with each test,
--             assignment, wait and call as a step of its own, and where a stop comes in between
--   Server    sim/Simulator.cpp: setupAcceptFdSet, acceptConnections and the loop of start; in
--             Server/Startup start as a whole
--   Program   main.cpp, and construction, stop and destruction of NetworkSimulator (sim/Simulator.cpp)
--   Socket    socket/Socket.cpp: sendMsg, recvReply, setBlocking and setCloseOnExec, and in
--             Socket/Unblocker the unblocker; in Socket/Listening construction, ServerSocket and a table
--             of open descriptors
--   Log       log/log.cpp: the line of a message, and the hex dump with its two buffers
--   System    a medium as a whole: the steps that its thread and its nodes take, what every state has in
--             common that they reach (IsWell), and a specification of the messages by the phase of a
--             node (System/Protocol), which the handlers implement; in System/Messages what a node's
--             messages do from their bytes on, in System/Delivery and System/Collision the way of a
--             frame, and in System/Exchange six turns of the thread in which two nodes ask and one
--             transmits (over Thread/Turns and Medium/Single), and in System/Draining the end of any
--             number of transmissions (over System/Marks and Medium/Over)
--
-- (Paths are relative to src/ of the repository.) Functions keep their names, in snake case; a method
-- takes the address of its object. A parent module holds the definitions of a part, its children the
-- proofs, and its child Tests the runs and the theorems at concrete inputs.
--
-- How a part talks to another: the loop of the simulator (Server) turns each accepted client into a
-- node of one of two mediums. A medium's thread (Thread) waits and (Medium) takes the poller's
-- events, lets the nodes read their messages (Reader), and these call the handlers of the node's
-- state (Node), which put the node on the medium's lists or move it between its maps (Membership).
-- All of them share one state (Store), in which a node is an address in a heap, so that a pointer
-- kept in a list after its node was deleted is a pointer to nothing, and following it is the fault
-- `dangling`.
--
-- What is outside: the kernel's answers (timers, epoll, sockets) are arguments, gathered in the
-- record Kernel and in the types of events. The bytes that malloc leaves in a buffer are an
-- argument too. A throw, a failed assertion, a read outside a buffer and an overflow of a signed
-- product are values of Fault, since nothing in a medium's thread catches them; main catches what
-- start throws (Program). Loops over a list are recursions on it. The loops of
-- removeNodeFromTxList, which need not end, and of interval take fuel and say none where it runs
-- out; for interval one unit is enough (Thread/Interval). The thread is a
-- function from one of its points to the next (Thread/Points), so that calls from other threads in
-- between, in a wait too, are sequences of steps; a load or store of the state and a call are each
-- indivisible. The larger steps of Thread are runs of such points that no stop disturbs
-- (Thread/Points/Whole).
--
-- Numbers are the natural numbers, with the wrap-around of the machine's types written out; counters
-- that the code only increments are exact. The host is little endian, as the code's users are.
--
-- Node/Frame and Reader/Frame carry a relation between states along every handler (Store/Frame says
-- what the relation has to allow), which is how the theorems on what a message leaves alone are
-- proved.
--
-- The steps of System (System/Steps) are the calls that return: a node joins, its message is read,
-- it is deregistered because its connection is closed, the thread answers, marks collisions,
-- finishes transmissions, ends registrations, or moves its state. They begin at the constructor and
-- may end with the destructor (System/Lifetime). addNode is one step there. A step that would
-- delete a node that still waits for an answer or transmits is left out, since the code then keeps
-- a pointer to it (Medium/Deregistered shows what follows).
--
-- Of the kernel's answers to one call of a socket's function, the model fixes nothing but their
-- type; what a theorem needs of them is one of its hypotheses.
--
-- What the medium's thread may do while the simulator's loop is in addNode is seen in Node/Early, where
-- addNode is the two steps watch_node and list_node (Membership).
--
-- Not modelled: the format of the log's messages, prctl and the first dispositions of the signals,
-- the capture file's format, the members that only return or set a field, and the older single-file
-- program x6losim.c, which the build leaves out and which uses members of the header that
-- x6losim_interface.h has no longer.
--
-- The two threads that Program joins are run one behind the other: once they are stopped they share no
-- state. Ten points are fuel enough for a join from anywhere in the loops where the stop is not lost
-- (Thread/Points/Stop). A stop that comes before run has begun is in Thread/Shutdown.
--
-- What the creation of a node in the loop of start throws is that of new_device_node and add_node, with
-- the medium as it is then (Server, create_node).
pub mod Checksum
pub mod Clock
pub mod Log
pub mod Medium
pub mod Membership
pub mod Node
pub mod Packet
pub mod Prelude
pub mod Program
pub mod Reader
pub mod Server
pub mod Socket
pub mod Store
pub mod System
pub mod Thread
pub mod Timer
pub mod Wire
