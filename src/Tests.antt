-- ===== src/Tests.antt =====
-- Runs of the model on small inputs.
mod Queue
mod Submissions
mod Sessions
mod Results
mod Processing
mod Streams
mod Merging
