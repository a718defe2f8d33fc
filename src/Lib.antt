-- ===== src/Lib.antt =====
-- A model of the ROS 2 driver for the AFI920 radar, and what makes it correct.
--
-- The driver (src/afi920_driver) asks the sensor over a configuration connection to stream, and
-- receives three streams over UDP or TCP: RDI (detections), SHII (health) and SPI (performance). A
-- datagram is a SOME/IP message, whole or a SOME/IP-TP segment; its payload begins with an E2E
-- Profile 7 header with a CRC-64/XZ; what follows is an ISO 23150 message, which a parser reads and
-- the node publishes. A receiving thread runs process_rdi_datagram for each datagram, that calls
-- someip_deserialize, someip_validate, SomeipTpReassembler::Feed, consume_e2e_header,
-- RdiParser::Parse and deliver_rdi_frame in this order; the other two streams have no segments.
--
-- The files, and the code that each models (paths below src/afi920_driver):
--   Base: the helpers that all share. Base.Memory has reads through a pointer: a pointer with the
--     bytes that may be read behind it is the list of those bytes, p + n is `drop n p`, and a read or
--     a copy past the end is the result `fault`, which the theorems exclude.
--   Wire: include/afi920_driver/parsers/endian_util.hpp and the packing helpers of
--     include/afi920_driver/interface/bts_iso23150.h. A float is its 32 bits.
--   E2e: src/e2e.cpp and include/afi920_driver/someip/e2e.hpp (e2e_parse, e2e_crc64_xz_update,
--     e2e_crc64_xz, e2e_validate). E2e.Protect lays frames out as a sender does.
--   Someip: src/someip_parser.cpp and include/afi920_driver/someip/someip_parser.hpp, with
--     SomeipTpReassembler in Someip.Tp: the record Reassembler has its members, and Feed, Reset,
--     IsTimedOut and GetPayload are functions on it. Readings of the steady clock are arguments.
--   Parsers: src/rdi_parser.cpp (Parsers.Rdi, with the structures in Parsers.RdiTypes),
--     src/shi_parser.cpp (Parsers.Shi, Parsers.ShiTypes) and src/spi_parser.cpp (Parsers.Spi,
--     Parsers.SpiTypes). Parsers.Iso has the interface header that all parsers read first,
--     Parsers.Section a section that begins with a count, Parsers.Elements the loop over elements,
--     Parsers.At what stands at an offset. Shi.RoundTrip, Spi.Elements and Spi.RoundTrip lay payloads
--     out as a sensor does.
--   Node: src/afi920_node.cpp. Node.Types has the members of Afi920Node that the streams use and the
--     list of events that stands for what is published; Node.Gate is consume_e2e_header;
--     Node.Datagram lays datagrams out as a sensor does; Node.Rdi,
--     Node.Shi and Node.Spi are process_rdi_datagram, process_shi_datagram and process_spi_datagram
--     with their callbacks, Node.Rdi.Messages is what the builder makes of a frame within on_rdi_frame,
--     and Node.Parameters is on_parameter_change. Node.Threads has the loops of
--     the receiving threads over any receiver, and Node.Start the constructor, the destructor, and the
--     declaration and reading of the parameters. Node.Streams has the three threads on the one node
--     that they share, datagram by datagram in any order.
--   Transport: include/afi920_driver/transport/stream_receiver.hpp (Transport.StreamReceiver, the
--     interface and what it promises), src/tcp_stream_client.cpp for POSIX (Transport.Tcp) and
--     src/udp_receiver.cpp (Transport.Udp). What the system answers to the socket calls is an
--     argument; bytes come as the list of the answers of recv.
--   Config: src/config_client.cpp (detect_local_ip, configure_streams and their helpers); Config.Text
--     has the texts and what is used of the C library on them.
--   Builder: src/pointcloud_builder.cpp, with the messages of src/afi920_msgs that it fills
--     (Builder.Array). Builder.Floats compares and converts floats by their bits; the product and the
--     functions of <cmath> are the parameter Maths. Builder.Cloud is the interface of the library of
--     clouds of sensor_msgs, with the laws that are used of it and a table that meets them.
-- A module below one of these has what is proved of it; the modules Runs have concrete runs.
--
-- An integer of w bits is a natural number, with `% 2 ^ w` written where the code wraps around. A
-- function that fills an output parameter takes its old value and returns the new one. Loops over
-- bytes, detections and elements are structural recursion on the list or on the number of rounds
-- that are left, so no fuel is needed.
--
-- The loop of a thread is recursion on the number of times that its flag is still read as true, which
-- the destructor bounds: the theorems hold for every such number. The fuel of the decimal print is 20
-- digits, enough for 64 bits, and that of the leading bit of a fraction is 64.
--
-- Not modelled: log messages; locks and atomic memory orders (the handling of one datagram is one
-- step, a function of the members; the flags of the E2E check are read once for it, and the destructor
-- does not come between the steps of a Receive); socket options but those of the UDP receiver; the
-- rounding of the product of floats and of the two functions of <cmath>; quality of service of the
-- publishers.
pub mod Base
pub mod Wire
pub mod E2e
pub mod Someip
pub mod Parsers
pub mod Transport
pub mod Config
pub mod Builder
pub mod Node
