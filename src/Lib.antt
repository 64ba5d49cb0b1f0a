-- ===== src/Lib.antt =====
-- Viofosync copies the recordings of a Viofo dashcam to a server. It lists the camera's files over
-- HTTP, keeps a queue of clips in SQLite, downloads one clip at a time, indexes what is on disk,
-- derives thumbnails and durations, and deletes old clips when space is short. These files model
-- the logic that decides what happens to a clip; the I/O around it is left out or is a parameter.
--
-- The parts of the program, and the files here:
--
-- Camera (viofosync_lib/cameras.py): the registry of lenses; `is_gps_camera`, `channel_of` and
-- `pair_slot_of`. Camera codes are read by their last letter.
--
-- FileName (viofosync_lib/_archive.py, web/services/naming.py, web/services/queue.py): the regular
-- expression `downloaded_filename_re` as the function `parse`, the queue's `_suffix_letters`,
-- `_camera_from_filename` and `_event_from_filename`, and the SQL fragments that cut the same facts
-- out of a name. A name is a list of character codes, read as ASCII.
--
-- Queue (web/services/queue.py): the table `download_queue` as the list of its rows. Queue.Row has
-- a row and the predicates that SQL fragments express, Queue.Ops the statements, each under its
-- function's name (`mark_downloading`, `skip`, `download_next`, ...), Queue.Reconcile the folding of
-- a remote listing into the queue, Queue.Pick `next_pending` and its gates, with
-- `run_recording_status_release` of web/services/sync_worker.py. Queue.Machine has the arrows of the
-- state machine. `int(time.time())` is the argument `now`, a whole number of seconds.
--
-- DeriveQueue (web/services/derive_queue.py, web/services/derive_worker.py): the table
-- `derive_queue`, every statement on it, and the worker's loop. What `derive_one` reports for a clip
-- is a parameter that may differ in each turn.
--
-- Retention (web/services/retention.py): the time rule, the pass for space, `sweep`,
-- `make_room_for` and `delete_clip`. The operating system is the parameter `Host`: its functions
-- answer from a world, of any type, that removals change in any way: a file system that refuses
-- removals is an instance, and so is one that other programs write to.
--
-- Deletion (web/services/queue.py, web/services/sync_worker.py, viofosync_lib/__init__.py): the
-- deletes in the archive and on the camera, the lock, and the delete on the camera after a
-- download. The camera is the parameter `Dashcam`, which answers each request from a state of any
-- type. The event for the web interface is returned, as if one were always connected.
-- Deletion.Requests has the requests that change the queue, those of Queue.Machine.Commands among
-- them, on a queue, an archive and a camera.
--
-- Geofence (web/services/geofence.py, with `geofence_candidates` of web/services/queue.py and
-- `expand_journey_window` of web/services/gps.py): the clips that are skipped because they were
-- recorded at home, and the shutdown tails that are spared. Times are whole seconds.
--
-- Gpx (viofosync_lib/_gpx.py): the bytes of a recording. Gpx has the headers of atoms and
-- `has_final_moov`, Gpx.Payload `get_gps_offset` and `get_gps_data`, Gpx.Walk `parse_moov`. A file is
-- the list of its bytes, and the floats of a fix stay their four bytes.
--
-- RangeReader (viofosync_lib/_protocol.py): the file that is read over HTTP, with the answers of the
-- server as an argument; it stands in for the file that Gpx reads.
--
-- Track (web/services/gps.py): the sorted points of a day, the outlier filter and the sessions in
-- Track, `detect_stops` in Track.Stops, `build_journeys` and `aggregate_day` in Track.Journeys. The
-- distance of two points and the test of a point against a median are arguments. Track.Windows puts
-- them together with `expand_journey_window`.
--
-- Triage (web/services/triage.py): which clips are read for their GPS track, and what a read leaves.
-- Triage.Pool has the three workers of `run_pass` as a relation on runs: `begin_work` and `end_work`
-- may come in any order.
--
-- Sync (web/services/sync_worker.py): `_download_one` with what it calls on the queue, the derive
-- queue, the skeletons and the camera; Sync.Cycle has the drain loop, `_relist_due` and `_cycle`.
-- What the network does in a turn is the record `Lap`.
--
-- Export (web/services/exporter.py, web/routers/exports.py): the pieces of a timeline in Export, the
-- table `export_jobs` and the worker's control of its job in Export.Jobs, where the ids of jobs stand
-- for the names of their files. Export.Jobs.Steps has what the worker, the routes, a restart
-- and a stop do.
-- Times of the plan are milliseconds. Export.Footage puts the exports and retention together.
--
-- Grouping (viofosync_lib/_archive.py): `get_group_name` and `get_filepath`, with the calendar that
-- they use of `datetime`. Only dates that `datetime` accepts have a folder.
--
-- Scanner (web/services/scanner.py): the table `clip_index`, `scan` and `index_one_clip`. What the
-- group folders hold is an argument.
--
-- Importer (web/services/importer.py): `ingest_clip` in Importer.Ingest, on a map from paths to
-- contents, with an argument that says which of its calls fail; `scan_source`, the loop of
-- `run_folder_ingest` and the staging folder in Importer.Folder.
--
-- How they interact: the worker reconciles a listing (Queue.Reconcile), Triage reads the tracks of the
-- clips, on which Geofence decides, and the worker picks a clip (Queue.Pick), downloads it and marks
-- its progress (Sync, Queue.Ops); a downloaded or imported clip is indexed by the Scanner, which gives
-- it a row in the derive queue; the importer calls `make_room_for`; retention deletes files, index
-- rows and derive rows together, but for the clips that the export jobs will read.
--
-- Numbers: times and sizes are whole numbers. `used / total * 100 >= pct` is compared without the
-- division, so the rounding of floats is not modelled. Priorities are integers. The UNIQUE and
-- PRIMARY KEY constraints are hypotheses where they matter.
--
-- Loops: `reconcile` is recursion over its listing. The loops of `_disk_pressure_pass` and
-- `make_room_for` run on fuel one above the number of indexed clips, which is enough since each
-- round takes a clip out of the index or notes it as failed. The derive worker's loop, which by
-- itself runs until the program stops, runs on any fuel; the attempts that the pending clips have
-- left are enough for it to come to rest. The loops of parse_moov have one turn more than the file
-- has bytes, those of has_final_moov one more than it has atoms, and the drain as many as the
-- attempts that the pending clips have left, with one more for each cancelled download.
--
-- Not modelled: HTTP and, but for the range reader, the camera's protocol, GPX text, uploads, the
-- ffmpeg command lines of exports, MQTT, settings, authentication, the routers but for the delete of
-- an export, logging and, but for the one event of Deletion, messages to the web interface. An
-- exception of SQLite, which rolls a write back, is not modelled either.
pub mod Prelude
pub mod Camera
pub mod Grouping
pub mod Scanner
pub mod Importer
pub mod FileName
pub mod Queue
pub mod DeriveQueue
pub mod Export
pub mod Retention
pub mod Track
pub mod Triage
pub mod Deletion
pub mod Geofence
pub mod Gpx
pub mod RangeReader
pub mod Sync
pub mod Tests
