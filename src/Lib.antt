-- ===== src/Lib.antt =====
-- janus-ftl-plugin: what the plugin does with an FTL stream between the client's first command and
-- the packets that it hands to its viewers.
--
-- A client opens a control connection and goes through a text handshake
-- (src/FtlControlConnection.cpp). What it asks for reaches the server (src/FtlServer.cpp) as
-- events; the server looks up keys, starts the stream (src/FtlStream.cpp), reserves a media port for
-- it, and keeps the list of active streams. The media port's packets go to a media connection
-- (src/FtlMediaConnection.cpp), which extends their numbers (src/Rtp/ExtendedSequenceCounter.cpp),
-- keeps track of what is missing and asks for it again (src/Rtp/SequenceTracker.cpp), records key
-- frames, and hands the packets on to the plugin's stream of the channel (src/JanusStream.cpp). The
-- plugin (src/JanusFtl.cpp) keeps these streams and the sessions of the viewers: a session views a
-- channel's stream, or waits for one. A stream is relayed to another node by a client of its own
-- (src/FtlClient.cpp), which goes through the same handshake from the other side.
--
-- Rtp/Counter: `Extend` with its branches as `extend_probation`, `extend_in_order`, `extend_jump`.
-- Rtp/Tracker: `Track`, `MarkNackSent`, `GetNackList` and what they call, under the same names.
-- Rtp/Packet: header, payload and NACK as bytes (src/Rtp/RtpPacket.cpp, src/Rtp/Types.h).
-- Media: `onBytesReceived` and what it calls; Media/Frames is `Frame`, Media/Stats is `GetStats` and
--   `GetKeyframe`, Media/Thread the reading thread over a transport. What the connection writes and
--   hands on is a list of effects.
-- FtlTypes, Util: src/Utilities/FtlTypes.h and the hexadecimal digits of src/Utilities/Util.h.
-- Control: every command, `onTransportBytesReceived`, and the calls of the server;
--   Control/Session has the sequences of both, and Control/Thread the thread of a connection.
-- Server: the listeners of the event queue, `reserveMediaPort`, and the pass over the pending
--   connections; Server/Steps is the step relation of the threads, in every interleaving.
--   Server/Stats is `Stop` and the statistics.
-- Stream: src/FtlStream.cpp, with any sequence of calls in Stream/Closing.
-- Janus: src/JanusFtl.cpp, src/JanusStream.cpp, src/JanusSession.cpp and
--   src/ServiceConnections/EdgeNodeServiceConnection.cpp. Janus/Streams is a stream's viewers and
--   relays, Janus/Plugin the calls of the core and of the server, Janus/Viewers the messages, the end
--   of a session and the relays that the orchestrator asks for, Janus/Sdp the offer, Janus/Rtcp the
--   walk over RTCP packets, Janus/Report a pass of the report thread,
--   which takes the state that it finds at each of the two times that it holds the lock. Janus/Calls has the sequences
--   of calls and the abstract state that they are compared with: which channel each session watches.
-- Client: `Stop` and the end of the thread, the reading of responses, the handshake and the metadata
--   of src/FtlClient.cpp; Client/Connect is `ConnectAsync`. Client/Handshake puts it together with
--   Control.
-- Decoder: the byte stream of src/VideoDecoders/H264VideoDecoder.cpp.
-- Rest: src/ServiceConnections/RestServiceConnection.cpp, whose attempts are a function from their
--   number to the response.
-- Glimesh: src/ServiceConnections/GlimeshServiceConnection.cpp: the token and when it expires, the
--   queries, and in Glimesh/Operations what is read from their JSON. Http: the attempts that both
--   services share.
-- Transport: src/ConnectionTransports/NetworkSocketConnectionTransport.cpp. What it does with its
--   socket is a list of effects, and what the system calls answer are arguments.
-- Listener: src/ConnectionListeners/TcpConnectionListener.cpp and
--   src/ConnectionCreators/UdpConnectionCreator.cpp, where transports come from.
-- Dummy: src/ServiceConnections/DummyServiceConnection.cpp.
-- Setup: the constructor of src/JanusFtl.cpp, which puts the parts together.
-- Config: `Load` of src/Configuration.cpp, and the playout delay.
-- Prelude: maps and sets as ordered lists (`OrdMap`), lists, tests, bits and strings.
--
-- Numbers keep their C++ widths by `%`. Clock readings are arguments. What a callback, the random
-- engine, HMAC, a regular expression, the printing of numbers, `std::stoul`, `std::stoi`, the
-- environment, the decoder or a service returns is a parameter. The hash sets and maps of the source
-- are ordered lists: nothing depends on the order in which they are walked but the order of effects.
-- A use of a session after its end is an effect of its own, `use_after_free`.
--
-- Where a string that is to be hexadecimal has other characters, the bytes are 0 from there on; the
-- blanks, signs and `0x` that `std::hex` would skip are taken for such characters.
--
-- The loop of `reserveMediaPort` runs on fuel 2 ^ 16, one turn for each value of its index. Where all
-- ports are used it does not end, and the thread of the events is stuck from then on. The walk
-- of `IncomingRtcp` runs on any fuel; one turn for each packet is enough for a buffer that is filled
-- by its packets. The loop of the transport's `sendData` runs on any fuel, since it need not end. The
-- attempts of a request are 1 + `max_retries` at most. Numbers are written with 20 digits at most,
-- enough for 64 bits. The other loops recurse on the lists that they walk over, and the loop over the
-- command buffer on what is left of it.
--
-- Not modelled: the starting and joining of threads and the locks inside a handler, logging, the
-- Janus core, what libav makes of a key frame, the set-up of HTTP clients, the entry point and the
-- wrappers of pointers: calls of libraries and of the system with nothing of their own between them.
pub mod Prelude
pub mod Rtp
pub mod FtlTypes
pub mod Util
pub mod Media
pub mod Control
pub mod Server
pub mod Client
pub mod Janus
pub mod Stream
pub mod Decoder
pub mod Config
pub mod Rest
pub mod Transport
pub mod Http
pub mod Glimesh
pub mod Listener
pub mod Dummy
pub mod Setup
