-- ===== src/Lib.antt =====
-- The Register Access Protocol library: a client that reads and writes the registers of a device
-- through messages, and a server that performs them.
--
-- The program's parts and the files that model them:
--   * Types.h and the exception of Transports.h: Result.antt. A call returns a value, throws one of
--     the exceptions, or commits a fault (a failed assertion, a read out of range, a division by
--     zero, a function that ends without its return), which no handler of the program sees.
--   * Configuration.h: Configuration.antt. `Cfg` holds the sizes in memory and on the wire and the
--     feature flags; `IsConfigurationType` is the concept; `IsUsable` adds that no field has zero
--     bytes on the wire, which the code relies on (it divides by them).
--   * the structs and enums of Serdes.h: Messages.antt and the files in Messages/.
--   * the class `Serdes` of Serdes.h: the files in Serdes/. Size.antt has the constructor, `calcSize`
--     and `getMax...Count`; Buffer.antt and Arrays.antt have the `append...`, `extract...` and
--     checksum functions; Packet.antt has the lines with which both decoders begin and end;
--     Command/Encode.antt, Command/Decode.antt, Response/Encode.antt and Response/Decode.antt have an
--     encoder and a decoder for each message and the four public functions.
--   * the transport interface of Transports.h, and the interface `IRegisterTarget` of the library RTF,
--     as far as it is called: Interfaces.antt, over calls that change a state (Calls.antt).
--   * SyncPairedIpcTransports.cpp: PairedIpc.antt. A queue is a list, each method one step; the timeout
--     is a field.
--   * RegisterTarget.h: RegisterTarget/Exchange.antt has `doCmdResp` with the transaction ids, and
--     RegisterTarget/Methods.antt the methods. The transport and the methods of the base class are
--     parameters. `CommandResponseRelationshipTrait` is Messages/Relationship.antt.
--   * ServerAdapter.h: ServerAdapter.antt has `handleCmd` for each command and `backgroundWork`. The
--     register target is a parameter; ServerAdapter/Target.antt says what is expected of it.
--   * Loop.antt joins a client and a server by a paired transport: `recv` of the client lets the
--     worker take what was sent. An exception that the worker does not catch ends the program.
--   * Session.antt and the files in Session/ interleave one client thread and the worker, a step for
--     each call of the transport: Session/Server.antt has the steps of the worker, Session/System.antt
--     those of the client. Four fields of a session are its history, which no code reads.
--     Session/Log.antt has what a session is held against: a target that performs commands one after
--     the other.
--   * Threads.antt and the files in Threads/ have any number of threads in methods of one client, with a
--     step for each access to the id counter or to the transport, against the same worker.
--     Threads/History.antt and Threads/Log.antt hold what was sent against what was taken, and both
--     against the same target as a session.
--     In a session and in Threads/ the client sends only commands whose fields fit the wire.
--   * SyncUdpTransport.cpp: Udp.antt, and the constructor in Udp/Construct.antt. The calls of asio are
--     a parameter, Udp/Asio.antt.
--
-- The description of a packet that these are held against is in Serdes/Frame.antt, Command/Wire.antt
-- and Response/Wire.antt: header, fields as little-endian bytes (Serdes/Bytes.antt), checksum.
--
-- Numbers are natural numbers. A conversion to an unsigned type of n bytes is written `% 256 ^ n`;
-- `size_t` has 64 bits. A `BufferView` is a list of bytes, and what extracts from it returns the view
-- that is left. The checksum function of CRCpp is a parameter, `calculate`, with its documented
-- range as hypothesis, `IsCrc`. Loops are recursion on the number of rounds, so no fuel is needed.
--
-- Not modelled: how long a wait lasts (a wait ends with a buffer or with its timeout, whichever the
-- step says), the text of exceptions, the log, WiresharkDissector.lua, which displays packets and which
-- nothing of the library calls, and the third-party libraries CRCpp, RTF, YALF and asio.
pub mod Base
pub mod Result
pub mod Configuration
pub mod Messages
pub mod Serdes
pub mod Calls
pub mod Interfaces
pub mod ServerAdapter
pub mod PairedIpc
pub mod RegisterTarget
pub mod Loop
pub mod Session
pub mod Threads
pub mod Udp
pub mod Tests
