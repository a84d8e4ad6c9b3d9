-- ===== src/Lib.antt =====
-- OpenQUIC, a QUIC library in C: models of the parts that carry the protocol's own logic, and what
-- is proved of them.
--
-- The program. A session (src/session.c) is a table of modules. A datagram is taken apart by the
-- receiver, which parses its frames (src/format) and hands each to the module it is for: data to
-- streams, which put it in order (src/sorter.c) under flow control (src/modules/stream_flowctrl.c,
-- src/modules/conn_flowctrl.h), packet numbers to the generator of ACK frames
-- (src/modules/ack_generator.c), and ACK frames to the packets in flight
-- (src/modules/retransmission.c), which tell congestion control (src/modules/congestion.c). The
-- sender collects the frames of these modules into packets and seals them with BoringSSL.
--
-- The files.
--   Common          Boolean tests, lists and Option chains over the native numbers, 64-bit words
--                   (add64, sub64, mul64 wrap), the codes of src/utils/errno.h, tables of masks.
--   Varint          src/utils/varint.h: varint_len, varint_r, varint_format_len and varint_bytes are
--                   the macros quic_varint_len, quic_varint_r, quic_varint_format_len and
--                   quic_varint_format_r, on lists of bytes.
--   Frame           src/format/frame.h and frame.c. Frame holds the structs, Frame/Wire the macros
--                   that read and write (a parser takes the bytes that are left, a writer the
--                   buffer), Frame/Parse, Frame/Format and Frame/Size quic_<frame>_parse, _format
--                   and _size, Frame/Dispatch the tables that conf/frame.conf generates and the
--                   three functions that use them. A result `fault` or `wild` is an access outside
--                   of an allocation, or of another struct than the one that is there.
--   Sorter          src/sorter.c and sorter.h. Sorter/Gaps is the list of gaps of
--                   quic_sorter_write, Sorter/Clusters the loops that store and load bytes,
--                   Sorter/Rbt the interface of liteco's red-black tree, which is a parameter.
--   AckGenerator    src/modules/ack_generator.c and ack_generator.h, a function for each operation.
--   ConnFlowctrl    src/modules/conn_flowctrl.h and conn_flowctrl.c.
--   StreamFlowctrl  src/modules/stream_flowctrl.c, on one stream and its connection.
--   Congestion      src/modules/congestion.c for one path: Congestion/State the status,
--                   Congestion/Cubic CUBIC and PRR, Congestion/Pace RTT and pacing, Congestion the
--                   functions that the other modules call.
--   Retransmission  src/modules/retransmission.c and retransmission.h, over the interface of
--                   congestion control in Retransmission/Interface, which
--                   Retransmission/Control fills with Congestion.
--   TransportParameter
--                   src/format/transport_parameter.h, with the parsers and writers of Frame/Wire.
--   ConnidGen       src/modules/connid_gen.c and connid_gen.h. World is what the module shares with
--                   others: the identifiers of the session, the queue of the framer, what was freed.
--   Stream          src/modules/stream.c and stream.h: Stream has the numbers of streams, Stream/Send
--                   and Stream/Recv the two halves of a stream, Stream/Sets the four sets of streams
--                   and what the session calls.
--   Framer          src/modules/framer.c and framer.h: which stream, and which control frame, is next in
--                   a packet, over the streams of Stream/Sets.
--   Header          src/format/header.h: the headers of packets, read from their bytes.
--   Sender          src/modules/sender.c: the headers as they are written, and their sizes.
--   Sealer          src/modules/sealer.c: the frames of a packet formatted into its payload.
--   Recver          src/modules/recver.c: a packet is taken apart, and its frames are handed on.
-- The child modules of a part that are not named here hold its proofs, and Tests its witnesses.
--
-- Choices. Numbers are natural; every addition, subtraction and product of 64 or 32 bits that can
-- wrap is written with its modulus. Memory that malloc gives or refuses is a Boolean argument, or a
-- function from the key it is asked for. The time of quic_now is an argument. A linked list is a
-- list in the order of its links. Where the C code has undefined behaviour (freed memory is read,
-- a divisor is 0, a list's head is read as an element, a byte is read behind its buffer), the result
-- is a value of its own.
-- An address in ConnidGen is the number of the call of malloc that gave it. A coroutine that waits is
-- a result of its own, and a second function resumes it. quic_stream_create is given memory where it
-- is called by quic_stream_open or for a frame: `make` is the stream that it returns.
--
-- Fuel. The loops over clusters run on fuel, which quic_sorter_write and quic_sorter_read give as
-- the number of bytes: each round moves one byte at least. The loop of quic_transport_parameter_parse
-- has as much fuel as there are bytes, of which each round takes two at least, that of
-- quic_recver_process_packet_payload too, where each frame takes one at least, and that of
-- quic_stream_read_co one more than bytes are wanted, of which each round but the last reads one. The
-- loop that draws connection identifiers is on the list of draws. All other loops are on lists.
--
-- Parameters. What RAND_bytes draws; what opening a packet leaves, and the handlers of its frames; the
-- tree of clusters (find, insert and remove with the laws of a finite map); the cube root of CUBIC and
-- the waiting time of the pacer (floats of libm); the settings of the session; and in Retransmission
-- the congestion module and the type of a frame.
--
-- Not modelled: migration, the loops of the sender that fill a packet, and the queue of the
-- receiver; of the sealer all that calls BoringSSL; sockets, threads, the scheduling of coroutines and
-- mutexes, which are those of liteco and pthread; the store of one congestion status for each path,
-- and the choice of the retransmission module by the type of a packet.
pub mod Common
pub mod Varint
pub mod Frame
pub mod Sorter
pub mod AckGenerator
pub mod ConnFlowctrl
pub mod StreamFlowctrl
pub mod Congestion
pub mod Retransmission
pub mod TransportParameter
pub mod ConnidGen
pub mod Stream
pub mod Framer
pub mod Header
pub mod Sender
pub mod Sealer
pub mod Recver
