-- ===== src/Lib.antt =====
-- A model of can-lite: a command protocol and an ISO-TP transport over CAN.
--
-- Parts, from the bottom up, and the files that model them:
--
--   Base             lists, Boolean tests, bits and two's complement numbers that the parts share
--   Protocol         can-lite/core/CanProtocolDefinitions.hpp: the 29-bit identifier
--   Codec            can-lite/core/CanFrameCodec.cpp: big-endian integers in a message
--   Payload          can-lite/core/CanPayload.cpp: CanPayloadWriter and CanPayloadReader
--   Hal              what the driver's identifiers have to satisfy
--   FrameTransport   can-lite/core/CanFrameTransport.cpp: one frame in flight, a bounded queue
--   IsoTp.FrameCodec can-lite/transport/iso-tp/IsoTpFrameCodec.cpp
--   IsoTp.Sender     can-lite/transport/iso-tp/IsoTpSender.cpp
--   IsoTp.Receiver   can-lite/transport/iso-tp/IsoTpReceiver.cpp
--   IsoTp.Link       a sender and a receiver joined by a bus that loses nothing
--   IsoTp.Channel    can-lite/transport/iso-tp/IsoTpChannelImpl.cpp: a sender and a receiver under
--                    two identifiers
--   IsoTp.Pool       can-lite/transport/IsoTpTransportImpl.cpp: the pool of channels
--   Server           can-lite/server/CanProtocolServer.cpp, with the server's half of
--                    can-lite/core/CanCategory.cpp and the system category
--   Client           can-lite/client/CanProtocolClient.cpp: sequence numbers, acknowledgements
--                    (Client), which servers are online (Client.Liveness), sending commands
--                    (Client.Sending, with the client's half of can-lite/core/CanCategory.cpp),
--                    and discovery, heartbeats and the dispatch of frames (Client.Dispatch)
--   Client.Exchange  the sending of commands joined to their execution by a server
--   Firmware         can-lite/categories/firmware_upgrade: both halves of the category
--   Slcan            can-lite/drivers/codec/SlcanCodec.cpp: frames as lines of hexadecimal digits
--   Slcan.Adapter    can-lite/drivers/implementation/SlcanAdapter.cpp: the link and its handshake
--   GsUsb            can-lite/drivers/codec/GsUsbProtocol.cpp: frames in a gs_usb adapter's records
--
-- State is a record and is passed explicitly. A method that calls back (a driver, a completion
-- handler, an observer) returns the calls that it makes as a list of events, in order; a later
-- report of the driver or of a timer is a call of another function of the model. Each function is
-- named after the method that it models, in snake case. Bytes and words are natural numbers with
-- the wrap-around of their C++ type written out.
--
-- Parameters: the driver's identifiers and completion handlers are arbitrary types, with the laws
-- of `CanIds` where an identifier is made from a number; a buffer's capacity is a field or an
-- argument; what the handlers of a server's categories and its ISO-TP transport do is a record of
-- functions (`Server.Dispatch.Handlers`). The loop of `IsoTp.Link.run` has fuel, and
-- `length pdu + 3` is enough for one transfer.
--
-- Not modelled: conversions of floating-point numbers, the other drivers under can-lite/drivers
-- (input and output of the operating system), the tracing decorators, and the choice of the bit
-- timing of a gs_usb adapter, which compares floating-point sample points.
pub mod Base
pub mod Protocol
pub mod Codec
pub mod Payload
pub mod Hal
pub mod FrameTransport
pub mod IsoTp
pub mod Server
pub mod Client
pub mod Firmware
pub mod Slcan
pub mod GsUsb
