-- ===== src/Offline.antt =====
-- The text of an offline recognition: its alignment with time stamps and its speakers.
pub mod Alignment
pub mod Filling
pub mod Speakers
pub mod SpeakerMerge
