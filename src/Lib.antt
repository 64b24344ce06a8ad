-- ===== src/Lib.antt =====
-- lightvideo: streaming of a desktop over UDP with an erasure code, remote input, and feedback on
-- the bitrate.
--
-- The server captures frames, encodes them to H.264, splits them into RTP packets, and sends each
-- packet behind a header; after four packets, which make a block, it sends two recovery datagrams
-- of a Reed-Solomon code. The client collects the datagrams of a block, recovers what is lost when
-- the next block begins, and decodes and shows the pictures. Window events go back over UDP to an
-- X11 emulator, counts and acknowledgements go back over TCP, and the server sets its bitrate by
-- them. Both sides send measurements to a statistics thread.
--
-- Which file is about which part (paths from the root of the repository):
--   Net.Packet          net/src/packet.rs: the header, `to_bytes` and `from_bytes`
--   Net.FeedbackPacket  net/src/feedback_packet.rs; Net.Wire is `bincode` at its two messages
--   Net.Input           net/src/input.rs; Net.Pod is `bytemuck` at its structs
--   Net.Address         socket addresses of the standard library
--   Codec, Rtp          the crates `reed_solomon_simd` and `rtp`, as far as the code uses them
--   Server.ErasureManager   server/src/packager/packet.rs: `send_lv_packet` cut into the steps
--     `flush_block`, `advance` and `send_regular`; its module Blocks is the specification, a stream
--     of blocks
--   Server.Packager     server/src/packager/mod.rs: `process_frame`, `send_next_pkt` and the queue
--   Server.StreamingServer  server/src/server/streaming_server.rs: the loop of `start_send_loop`; its
--     module Frames is the capture thread and the channel of frames, Setup is `new` and what stands
--     in front of the loop
--   Server.Capture      server/src/capture/linux.rs
--   Server.Main         server/src/main.rs: the command line and the addresses
--   Server.Encoder      server/src/encoder: the encoders of openh264_enc.rs and nvidia.rs
--   Server.Benchmark    server/src/benchmark/mod.rs: the loop of `bench`
--   Server.X11          server/src/input/x11.rs: `write_event`
--   Server.InputServer  server/src/server/input_server.rs: `start_receive_loop`
--   Server.FeedbackServer   server/src/server/feedback_server.rs: `handle_feedback`
--   Client.Input        client/src/decoder/input.rs: the thread of `start`
--   Client.DoubleBuffer client/src/double_buffer.rs
--   Client.LvDecoder    client/src/decoder/video.rs: `depacketize_decode`
--   Client.Video        client/src/decoder/video.rs: `decode_loop`; its modules Block, Original,
--     Recover and Stream follow one block through the loop, and Blocks several of them; Waiting and
--     Disorder are about a block out of order
--   Client.Network      client/src/decoder/network.rs: the receive loop of `socket_loop`; its module
--     Setup is what stands in front of it
--   Client.Ui           client/src/ui/mod.rs: the event loop; Client.Ui.Surface is wgpu_state.rs
--   Client.Feedback     client/src/decoder/feedback.rs: the thread of `start`
--   Statistics          statistics/src/statistics.rs; Statistics.Collector is collector.rs
--   System              what a client and a server do together; System.VideoPath is the way of the
--     video through a network that loses datagrams, System.Ports are the addresses of both
--   Prelude             outcomes, state passing, byte strings, and what the parts share
--   Examples            concrete parameters, and each theorem at a concrete input
--
-- How code is modelled: a byte is a number, a buffer a list of them; a fallible function gives an
-- `Outcome`, which is a value, an error or a panic; a method that changes `self` and may fail is a
-- state-passing function whose result `Ran` carries the state on every way out. Integers are
-- natural numbers, with the wrap-around of a release build written out where the code can reach it.
-- A loop that never ends by itself is a recursion over the list of what it receives, so no fuel is
-- needed; the inner loops of the streaming server and of the benchmark run on the length of the
-- queue, which is enough since each round takes a packet. Crates, sockets, clocks, the X server and
-- floating-point arithmetic are parameters, with what the code relies on as named laws; Examples
-- gives each a concrete instance.
--
-- Not modelled: the request of a graphics device, the descriptors that its objects are made from,
-- the start of threads, the scripts that draw figures, and what is only logged. The erasure code is
-- a parameter. The client needs its recovery shards whole, up to zeros at their end; the server sends
-- them cut to the largest packet of the block, which takes only zeros off where a chunk of 64 bytes
-- of the code ends. The slots of the channel between the client's threads are default ones when they
-- are given, as the channel's recycling makes them. The pointer that the hardware encoder keeps to a
-- local of `new` is `none` once `new` has returned.
pub mod Prelude
pub mod Net
pub mod Statistics
pub mod Codec
pub mod Rtp
pub mod Client
pub mod Server
pub mod System
mod Examples
