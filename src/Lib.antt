-- ===== src/Lib.antt =====
-- The agent of the Assimilation project. Its reliable protocol: framesets sent over UDP are numbered,
-- delivered in order and each once, acknowledged by the application at the far end, and sent again
-- until they are. Its work: commands on resources, and heartbeats of other nodes.
--
-- Sequence numbers order framesets within a session (clientlib/seqnoframe.c, in Seqno). A frameset is
-- a list of frames, one of which may be a sequence number (clientlib/frameset.c, in FsQueue/Frames).
-- A queue of framesets (clientlib/fsqueue.c, in FsQueue) is the output queue of a connection, which
-- numbers framesets (`enq`) and drops them when they are acknowledged (`ackthrough`), or its input
-- queue, which sorts what comes in (`inqsorted`). A connection is to a network address and a queue id
-- (clientlib/netaddr.c, in NetAddr, with its strings in NetAddr/Strings and socket addresses in
-- NetAddr/Sockets); the protocol object (clientlib/fsprotocol.c, in FsProtocol) keeps
-- a hash table of them, the list of those that wait for ACKs, and the queue of those that can be read.
-- Framesets travel as packets of type-length-value entries (clientlib/tlvhelper.c,
-- clientlib/generic_tlv_min.c, clientlib/intframe.c, in Tlv), and are taken out of datagrams by
-- clientlib/packetdecoder.c, in PacketDecoder, with the constructors of plain, unknown and signature
-- frames (clientlib/frame.c, clientlib/unknownframe.c, clientlib/signframe.c); its loop over framesets
-- is in PacketDecoder/Framesets, and frames of addresses with a port (clientlib/ipportframe.c) in
-- PacketDecoder/Ports.
--
-- Requests for operations on resources (clientlib/resourcequeue.c, clientlib/resourcecmd.c) wait in a
-- queue for each resource, which runs one command at a time, in ResourceQueue: Commands has the factory
-- and `_resource_queue_Qcmd`, Run the timer's function and what follows the end of a command, Cancel
-- the cancellations; an element's pointer is its serial number, and whether a child process can be
-- started is a parameter. Nodes are watched by their heartbeats (clientlib/hblistener.c, in Heartbeat
-- and Heartbeat/Timers; clientlib/hbsender.c, in Heartbeat/Senders). Framesets of the collective
-- management authority are authenticated and obeyed by clientlib/authlistener.c, in AuthListener. Which
-- keys there are, and whose they are, is kept by clientlib/cryptframe.c, in CryptKeys.
--
-- FsProtocol/Fsa has the two matrices of the automaton, FsProtocol/Types the objects of
-- include/fsprotocol.h, FsProtocol/Conn the automaton with its actions (`_fsprotocol_fsa`), resetting
-- and acknowledging, FsProtocol/Transmit `_fsprotocol_xmitifwecan` and `_fsprotocol_send1`,
-- FsProtocol/Receive what `_fsprotocol_receive` and `_fsprotocol_read` do with one connection,
-- FsProtocol/Table the entry points over the table, and FsProtocol/Control closing and the timers. A
-- connection is worked on together with the fields of its parent that it touches (`Conn`) and then
-- put back into the table; a pointer to a connection is its key. The other files under FsProtocol
-- have the proofs: Delivery for the input side over whole sessions, Channel and Prefix for the two ends
-- together, Progress for what can be read, Sends for the output side, Unacked
-- for the list of those that wait for ACKs, Keys, Endpoints, Entries and Closing
-- for the table.
--
-- Functions return the new state. `none` stands for what the code cannot survive: a read through a
-- null pointer, a write past a buffer, or fuel run out, as the comment of the definition says.
-- Numbers are natural numbers, with the wrap-around of counters and sums written out; an entry point
-- reads the clock once. `_fsprotocol_fsa` and `_fsprotocol_send1` call each other: the automaton takes
-- sending as a parameter and is tied to it in two rounds, since the inputs that sending gives to it do
-- not send. The loops over a packet run on fuel, the packet's length and one or two, since an entry
-- has a header of five bytes; those of the decoder as well, unless a frame replaces the packet.
--
-- Not modelled: reference counts and memory, logging and audits, sockets and timers of the main loop,
-- signatures, encryption and compression, reading the strings of IPv6 and MAC addresses, and the
-- rest of the agent. The numbers of frame and frameset types are those of cma/frameinfo.py; which
-- identity a key has (`cryptframe_whois_key_id`) is a parameter of the protocol.
pub mod Common
pub mod Seqno
pub mod FsQueue
pub mod NetAddr
pub mod ResourceQueue
pub mod Heartbeat
pub mod AuthListener
pub mod FsProtocol
pub mod Tlv
pub mod PacketDecoder
pub mod CryptKeys
mod Tests
