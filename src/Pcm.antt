-- ===== src/Pcm.antt =====
-- crates/translator-audio/src/pcm.rs: PCM frames, the bounded queue of frames, and the segmenter that
-- cuts a stream of frames into utterances.
pub mod Frame
pub mod Queue
pub mod Segmenter
