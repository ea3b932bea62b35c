-- ===== src/Tasks.antt =====
-- The life of a recognition task: its record in the database (src/database), its submission and
-- its processing (src/application, src/task_queue hooks).
pub mod Store
pub mod Submission
pub mod Requests
pub mod Effects
pub mod Files
pub mod Archive
pub mod Flow
pub mod Processing
pub mod Table
pub mod SpeakerStore
pub mod Diarization
