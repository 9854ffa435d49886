-- ===== src/Lib.antt =====
-- Stability Toys: the server's modes and models, its worker pool, its asset store and storage, its
-- ControlNet models, and its requests for analysis and super-resolution.
--
-- The program serves image generation from one GPU. What it can make is written down as modes in a file
-- (server/mode_config.py), and the model of a mode is resolved to a trace that can be checked elsewhere
-- (backends/model_resolution.py). Requests become jobs of a worker pool
-- (backends/worker_pool.py), which holds one loaded model at a time, loads modes, evicts the idle
-- model and loads it again on demand. A job may acquire ControlNet models from a cache
-- (backends/controlnet_cache.py), which the pool clears when it unloads its worker. Images that
-- requests upload and make are kept in byte-budgeted buckets (server/asset_store.py), persisted ones behind
-- a storage provider too. Requests to describe images (backends/analysis) and to enlarge them
-- (server/superres_service.py) have a way of their own.
--
-- Prelude     Tests on the native numbers and texts, lists, dicts in insertion order (Dict), and the
--             methods of an object with exceptions (Effects): a raise keeps what was written before.
-- Assets      server/asset_store.py. Assets.Model has the records, Assets.Store and Assets.Upkeep the
--             methods of `InMemoryAssetStore` under their names, Assets.Runs its calls as data. The
--             clock and the made-up names (uuid4) are arguments; `image_metadata` is the parameter
--             `describe`. Sizes are numbers of bytes; the mutex makes each method one step, and
--             `promote`, which lets go of it between reading and writing, a `write` of what it read.
--             The other files prove: Accounting the counters, Oldest and Eviction the loop of
--             `_evict_to_budget`, Placement and Methods what each method comes to, Cleanup the TTL,
--             History and Calls pins over time, Safety any sequence of calls.
-- Controlnet  backends/controlnet_cache.py: Controlnet.Cache has the ordered dict, Pins its eviction,
--             Leases the acquiring and releasing of models. The loader is a parameter. Controlnet.Policy
--             is server/controlnet_constraints.py, which checks a request's attachments before a job
--             is made of it, and Admission says which it lets through.
-- Storage     persistence/storage_provider.py: Storage.Memory is `InMemoryStorageProvider`, with each
--             reading of the clock an argument; Expiry and Limits prove what time and the limit do. Codec is
--             server/asset_codec.py, which carries assets to such a provider and back.
-- Tiered      server/tiered_asset_store.py: Tiered.Store has `write`, `resolve` and `promote` over the store
--             in memory and a provider, which is a parameter; Admit, Written, Rollback and Durable prove
--             what a failed and a successful write come to.
-- Analysis    backends/analysis: Contracts has the data of contracts.py, Json a value from the wire, Parsing
--             `parse_describe_request`, Validation `validate_describe_request`, and Orchestrator is
--             orchestrator.py. A provider is a parameter that answers each run by a function, and what it
--             answers with is opaque; errors stand by their code, and a message by what it quotes. The
--             tests by isinstance hold of the types. Agreement, Bindings, Responses, Verdict and Isolation
--             prove.
-- Families    backends/family_profiles.py (Families.Profiles) and server/controlnet_registry.py
--             (Families.Registry): what YAML reads, the file system and the model detector are
--             parameters. References joins the check of the modes to the admission of Controlnet.Policy and the
--             dispatch in server/controlnet_execution.py.
-- Conditioning
--             backends/conditioning: Invocation is invocation.py, Chain registry.py with the data of
--             contracts.py; results are asked for without a timeout. Services and filters are parameters, as are what a request and an artifact hold.
--             Cancelling proves what a cancelled invocation answers, Fallback what a chain consists of.
-- Superres    server/superres_service.py: Superres.Tiles is `_plan_tiles`, and Superres.Service is
--             `CudaSuperResService`, a round of its thread in two steps. `SrWorld` is the factory and
--             the workers. Cover proves the plan, Rounds and Serving the loop, in which every round has
--             a factory and workers of its own, Endings shutdown and faults.
-- Modes       server/mode_config.py. Modes.Values is what it reads of a value from YAML, and `Builtins`
--             what it uses of Python and of YAML, as a parameter. Sections parses the sections on chat
--             and analysis, Policies the blocks of a mode on conditioning and ControlNet; Model has the
--             records of a loaded configuration, Parse a mode and its resolution set, Load
--             `_load_config`, Chat the lookup of a mode and `resolve_chat_config`, Save the document
--             that `save_config` writes, Export what `to_dict` gives, and Manager `ModeConfigManager`
--             over the file. Consistency and Loading prove the references of what was loaded, Running
--             those of a manager in use; Written, Reread, Reloaded and Saved follow the sections on
--             analysis through a save, Exported from `to_dict` through a save, and Blocks the blocks of
--             a mode. Overrides has what a request overrides of a chat backend.
-- Requests    server/generation_constraints.py: the defaults and the sizes of a mode, in a request.
-- Resolution  backends/model_resolution.py. Resolution.Snapshot freezes what the detector found, Identity has the
--             references to a model's files, Wire a resolved model, its id and its checks, Resolver the
--             overlay of a mode and `resolve_model`. The hash, the file system, the detector and `==` are
--             parameters. Roundtrip and Traces follow a model over the wire, Safety what `resolve_model`
--             returns, and Integrity what an id stands for.
-- Pool        backends/worker_pool.py. Pool.Model has the jobs, futures, records and the pool's state,
--             and `World`, what a step meets outside: the clock, the mode configuration, the model
--             resolver, the worker factory and the worker's `configure_conditioning`, each with the
--             exceptions that it may raise. Pool.Loading is `_load_mode`, `_reload_from_snapshot` and
--             the unloading, with the part of backends/model_registry.py that they call; Pool.Jobs is
--             the queue, the records, cancellation and idle eviction; Pool.Loop is `_worker_loop`, a
--             round in two steps, `begin` up to `job.execute` and `finish` after it, so that other
--             threads act in between; Pool.Schedule has the events of all threads. Loads and Authority
--             prove what a load comes to and that one model has authority; Advances, Rounds and Ends
--             what a round keeps; Sound, Entries and Safety any sequence of events; Lifecycle has
--             reloads and the shutdown, and Draining proves that it ends; Barrier, Outcomes, Reload and
--             FreeVram prove single operations in full, Cancelled what becomes of a job that was
--             cancelled in the queue.
--
-- Bounds and fuel. The loop of `_evict_to_budget` has one more round than the store has entries, and
-- that of `_evict_if_needed` as many as the cache has; each round removes one, so that neither ends
-- for want of fuel (Assets.Eviction, Controlnet.Pins). The range of tile starts has a round for each
-- number below its end, and each round goes up by a tile (Superres.Cover). Numbers are unbounded, as in the source.
--
-- Simplifications. A subtraction on ℕ stops at 0: a bucket's counter is at least the size of each entry
-- that it counts, the VRAM difference is `max(0, ...)` in the source, and the clock of a step is not
-- before the last activity. A running job's record is looked up by its identifier, where the source
-- holds on to the object; identifiers are uuids. A record and its job go by the number of the future.
-- The first step of a round of the worker thread, from the queue to `job.execute`, is atomic: the
-- source holds no lock while it loads or reloads the model, and that nobody unloads it meanwhile is
-- assumed. A provider of analysis answers by its type, never with `None`, and its task is not
-- cancelled. A time to live is one of whole seconds. A tuple and a list in what the detector finds
-- are one array, as on the wire. A mapping that YAML reads has texts as keys, each once. In the
-- mode configuration an error goes by what raises it, without its text; a file, a mode or an entry
-- of a list that is not of the type that the code goes on to use is one `wrong_type`. In a save, a
-- section that is no mapping is `malformed` wherever it is met.
-- Not modelled: log lines, garbage collection, `threading` itself, the providers on Redis and the
-- file system, the warnings of the mode configuration on paths that are not there, its singletons,
-- the workflow configuration (server/workflow_config.py), `thaw_model_info`,
-- the registries of schedulers and styles, workflow jobs, ControlNet preprocessing, the RKNN
-- super-resolution service, the HTTP and WebSocket routes, the workers (torch, diffusers, RKNN) and
-- the clients in Go and JavaScript.
pub mod Prelude
pub mod Assets
pub mod Controlnet
pub mod Pool
pub mod Storage
pub mod Requests
pub mod Tiered
pub mod Analysis
pub mod Superres
pub mod Families
pub mod Conditioning
pub mod Modes
pub mod Resolution
