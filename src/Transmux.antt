-- ===== src/Transmux.antt =====
-- packages/vinyl-transmux/src: the containers of audio and video that the transmuxer reads.
pub mod Adts
pub mod MpegTs
