-- ===== src/Lib.antt =====
-- A model of the core of the speech recognition service: the queue of its recognition tasks, the
-- table, the submission and the processing of tasks, hotwords, the realtime session, and the shaping of offline
-- results. The paths below are those of the repository.
--
-- TaskQueue: src/task_queue. Registry is `TaskExecutionRegistry` (execution.py), Policy is policy.py,
-- PriorityQueue and Workers are `QueueWorkerRuntime` (workers.py), Scheduler is `OfflineTaskQueue`
-- with start-up recovery (queue.py, recovery.py), and Scheduler/Batch is `ImmediateBatchProcessor`
-- (batch.py). A method of the source is a function from the old state to the new one under the
-- same name; a coroutine is cut at its `await`s, and Workers/Steps lists what can happen between
-- two of them as a step relation. The end of `stop` may come there at any time, and the
-- workers that it drops from its list run on as strays; the code waits for those that were in the
-- list when it began. Scheduler/Batch has what other coroutines do at each `await` of a batch as a
-- function of the request.
--
-- Tasks: Store is `OfflineTaskDAO` (src/database/daos/offline_tasks.py) on the rows of a session;
-- Submission and Requests are `TaskSubmissionService` (src/application/tasks.py) with
-- `LocalTempFileStore` (src/core/infrastructure_adapters/temp_files.py). A request reads and writes
-- a world of rows, temporary files and the scheduler; what other coroutines make of the scheduler
-- while it waits is a parameter, any function. The repository's exceptions are flags of the
-- surroundings, and so is whether temporary files can be removed, of which no error is reported.
--
-- Tasks/Effects has actions that change a state and may raise, and in Effects/Hooks the
-- `SequentialHookExecutor` (src/task_queue/hook_execution.py). Files and Archive are the end of an
-- upload: `FilePostProcessor` and its publisher (src/application/postprocess.py) over
-- src/application/file_processing.py and src/database/daos/file_index.py. Processing is
-- `OfflineTaskService.process_task` (src/application/offline.py, src/application/task_flow.py) with the
-- hooks of src/task_queue/result_hooks.py in the order of src/task_queue/hook_handlers.py. Recognition,
-- hashing, the backup store and the message queue are parameters, and so is the exception that each
-- call ends with, if any. SpeakerStore is `SpkTaskDAO` (src/database/daos/speaker_tasks.py), over the
-- lookups of Table, and Diarization is `SpkTaskService.process_task` (src/application/speaker.py).
--
-- Core/Hotwords: src/core/hotwords/loader.py. JSON values are data; decoding them from text and
-- the lookup of a stored list are parameters.
--
-- Online: src/engine_runtime/engines/online. Audio is `ChunkedAudioBuffer` (audio_buffer.py), Policy
-- is session_policy.py, Boundary is text_boundary.py, and Session with its children is
-- `OnlineRealtimeSession` (realtime_session.py): Session has the state and the handling of
-- segments, Session/Operations what a client's messages call. The session uses the other three.
-- The recognizers, the punctuation, the speech detector and the tests of audio_quality.py are one
-- record of functions, of which nothing is assumed unless a theorem says so.
--
-- Online/Times is `extract_global_timestamps` (timestamp_utils.py).
--
-- Online/Stream is `OnlineStreamRuntime` (src/application/online_stream_runtime.py): Stream has what its
-- receiver and its worker do between two `await`s, and Stream/Steps when each of it may happen. A
-- session is there what it has been given and whether it is active.
--
-- Offline: src/engine_runtime/engines/offline. Alignment is timestamp_utils.py with the character
-- tests of src/core/text_utils.py, Speakers is speaker_utils.py, Filling has the rest of
-- timestamp_utils.py, and SpeakerMerge is onnx/speaker_merge.py with sentence_builder.py, which uses
-- Alignment and Speakers.
--
-- Prelude has what the parts share: lists and tests on native numbers, signed integers, equality
-- as an interface with sets and counts, and Python texts as lists of code points. Tests runs the
-- model on small inputs.
--
-- Numbers: Python's integers are unbounded, and so are the model's; times are whole seconds or
-- milliseconds. A product with a sample rate that is divided by 1000 is an exact quotient cut
-- towards zero. Fuel: the loop over a text that is aligned, and the one that takes punctuation
-- from its end, are given the length of the text, and each pass reads one character at least.
--
-- Not modelled: routes, the websocket endpoint, configuration, composition, logging and
-- diagnostics; the loading and the running of the recognition models; the audio backup stores; the
-- tables of hotwords; cancellation of a request, of a batch and of a task that is being processed
-- (a submission that is cancelled skips its compensation);
-- metrics and events of the realtime session, the clock of its partial decodings and the search
-- for time stamps in a model's answer.
pub mod Prelude
pub mod Core
pub mod TaskQueue
pub mod Tasks
pub mod Online
pub mod Offline
pub mod Tests
