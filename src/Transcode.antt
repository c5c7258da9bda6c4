-- ===== src/Transcode.antt =====
-- The threads together: from the frames of the input file to the buffers of the decoder.
pub mod Video
mod Tests
