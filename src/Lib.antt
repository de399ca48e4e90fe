-- ===== src/Lib.antt =====
-- awarekv (dakv) gives vLLM a remote store of prefix key-value caches that respects a deadline for the
-- first token. The scheduler half of the connector asks a manifest service whether the prefix of a
-- prompt is stored, and a planner decides what to load before the deadline; the worker half fetches the
-- objects over a framed protocol from a data server, decodes them layer by layer and writes them to the
-- paged cache. These modules model that path and prove what each part promises to the next.
--
-- - Prelude: the shared names, Python's integers and exceptions, Boolean tests and lists measured by
--   native numbers. Dict: Python's dictionaries as association lists in insertion order.
-- - Common: src/dakv/common/types.py, src/dakv/common/hashing.py, src/dakv/common/checksum.py. Calls with
--   keyword arguments check the signature of the callee, where the code gets it wrong: no save succeeds,
--   and every object is decoded in the old format.
-- - Config: src/dakv/config.py, on what the YAML library gives.
-- - Codec: src/dakv/codec. Elements and their arithmetic are an interface.
-- - Planner: src/dakv/planner/estimator.py and src/dakv/planner/deadline_planner.py (`make_plan` is the
--   method `plan`). Floats are an interface, with the laws of IEEE comparison as
--   named hypotheses.
-- - Metrics: the collector of src/dakv/metrics/counters.py (src/dakv/metrics/__init__.py has the same
--   text) and the tracer of src/dakv/metrics/events.py.
-- - Store: src/dakv/store/memory_index.py, src/dakv/store/manifest_models.py,
--   src/dakv/store/manifest_service.py, src/dakv/store/eviction.py and
--   src/dakv/store/local_disk_backend.py. The disk's failures are fields of its state.
--   Store/LocalDisk/Threads is the store under the threads of the data server: the calls of the
--   operating system as a step relation, with the states that the threads may come to. The modules
--   Runs, here and in Tier, are the methods under a lock in any order.
-- - Tier: src/dakv/tier/host_cache.py, src/dakv/tier/gpu_apply.py and src/dakv/tier/placement.py. A
--   tensor is the list of its rows.
-- - Transport: src/dakv/transport/protocol.py, src/dakv/transport/data_server.py,
--   src/dakv/transport/data_client.py, src/dakv/transport/throttling.py and the two channels. JSON and SHA-256 are parameters; a socket is
--   the list of the segments that are still to arrive, cut by the network as it likes.
-- - Connector: src/dakv/connector/state.py, vllm_adapter.py, metadata.py, scheduler_side.py,
--   paged_kv_ops.py, save_session.py, worker_side.py and deadline_connector.py of the same directory. The
--   last is the class that vLLM calls; Connector/Deadline composes the two halves the way it does.
--   Connector/Object is the format of objects that saver.py writes and loader.py reads; Connector/Publish
--   and Connector/Saver are `KVSaver`, Connector/Loader is `RemoteKVLoader` and Connector/RefineManager
--   is refine_manager.py. Connector/LayerName is how the adapter names layers and how the worker and the
--   save session read the names.
-- - Bench: src/dakv/bench and src/scripts/run_bench.py. Latencies are the floats of Planner.
-- - Tests: concrete inputs.
--
-- A method under a lock is one step, and a method that assigns to fields of a stored object is an update
-- of the table entry. Readings of the clock, fresh ids and replies of the network are arguments. Python's
-- numbers are unbounded, and sizes, times and counts are never negative here, so they are the natural
-- numbers; layer indices, slots and block ids may be negative and are integers.
--
-- The loop that receives a frame runs on fuel, one more than the length of the frame: every read takes
-- at least one byte, and an empty one ends the loop. The loop over the requests of a connection is
-- bounded by the number of rounds that its caller gives. All other loops are structural.
--
-- A thread's write to a file is cut into pieces of any size, and the threads may open, write and remove
-- one file at once. Where a theorem asks that no object was put or deleted while another put of it was
-- running, that is a predicate on the run.
--
-- Not modelled: PyTorch, numpy and vLLM, whose functions are parameters; the export of metrics to files,
-- logging, and the command lines of the scripts, which are output and input; the dataclasses that no code
-- uses; the functions that return a constant. The packages `__init__.py` repeat modules that are modelled
-- under their own names.
pub mod Prelude
pub mod Dict
pub mod Common
pub mod Planner
pub mod Metrics
pub mod Store
pub mod Tier
pub mod Transport
pub mod Bench
pub mod Codec
pub mod Config
pub mod Connector
pub mod Tests
