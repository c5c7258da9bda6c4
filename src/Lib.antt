-- ===== src/Lib.antt =====
-- omxtranscode: a transcoder for the Raspberry Pi. Three threads form a pipeline. `demux_thread`
-- (demux.c) reads the input file and fills two queues of packets (packet_queue.c). `decode_thread`
-- (encode.c) feeds the video packets to the OpenMAX pipeline of decoder, deinterlacer and encoder
-- (omx.c). The encoder's callback queues the encoded packets, and `writer_thread` (mux.c) hands
-- encoded buffers back to the encoder and writes video and audio to the output file.
--
-- The parts and their files here; paths of sources are from the repository's root.
--   ListApi: the calls of list.h, a copy of the kernel's list, as a record of operations and laws.
--   External: constants of the OpenMAX headers.
--   Ticks: `pts_to_omx` and `omx_to_pts` of omx.c.
--   PacketQueue: packet_queue.h and packet_queue.c. A function is what it does under the mutex, in
--   one step; a wait on the condition variable is a list of what other threads do in it.
--   Omx: omx.h, and of omx.c the command record of a component, `omx_send_command_and_wait` and the
--   event handler. OpenMAX accepts or refuses each call (`Il`), and events wait in `pending`.
--   Buffer: of omx.c the lists of buffer headers: taking a buffer, the callbacks that give one back,
--   the count of free ones, and, in finer steps, a callback that races with a reader.
--   Ports: `omx_alloc_buffers` and `omx_free_buffers` of omx.c.
--   Pipeline: of omx.c the initialisation of a component and `omx_setup_encoding_pipeline`.
--   Mux: of mux.c the writing of a frame: parameter sets, reassembly of NAL units, codec extra data,
--   and what is held between two calls.
--   Output: of mux.c the context of the output file and `writer_thread`, whose steps run in any order
--   with calls of the encoder's callback and what `demux_thread` adds.
--   Demux: demux.c: the choice of the streams, and `extract_streams` as steps that run in any order
--   with those of the two consumers.
--   Encode: encode.c: the loops that take packets and cut them into input buffers, the configuration
--   of the pipeline in them, the buffer that ends the stream, and `decode_thread` as a whole.
--   Transcode: demux.c and encode.c together, from the frames of the file to the decoder's buffers.
--   Main: `init_global_ctx` and `main` of main.c, the three threads being a function on the context.
--   Base: what the modules share: numbers, lists, integers, flag words, and `Outcome`, the ways in
--   which a call ends: with a value, by `exit`, never, or in undefined behaviour.
--
-- Packets and headers have addresses, so that what is freed can be told. Loops along a list of
-- headers run on fuel; their theorems ask for more fuel than the list has headers, and then the
-- fuel does not run out. The loops that read frames, take packets and feed their bytes to the
-- decoder have bounds on their rounds. Machine integers keep their width where the code depends on
-- it: time stamps, ticks, the sum of the sizes of the parameter sets.
--
-- Not modelled: list.h (a parameter), FFmpeg and OpenMAX (parameters), video.c and the other code
-- under `#if 0`, messages, `query_components` and `mpeg2_codec_enabled` of main.c, which nothing
-- calls.
mod Base
pub mod ListApi
pub mod External
pub mod Ticks
pub mod PacketQueue
pub mod Omx
pub mod Buffer
pub mod Ports
pub mod Mux
pub mod Output
pub mod Demux
pub mod Pipeline
pub mod Encode
pub mod Transcode
pub mod Main
