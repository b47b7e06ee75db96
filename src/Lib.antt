-- ===== src/Lib.antt =====
-- A verification library for the JavaScript and TypeScript parts of the Agent Memory Manager (AMM):
-- the plugins through which agents store and recall memories. AMM itself, a Go program behind an
-- HTTP API and a command line, is the environment of these plugins: its replies are parameters.
--
-- The parts and the files that model them (paths from the repository's root):
--   Base            what the modules share: tests, lists, strings as lists of UTF-16 code units
--                   with the methods that the sources call, JSON values
--   Effects         the world around the programs: files, requests, timers, processes, the clock;
--                   Rules has the proof rules for programs with effects, Keeps those for what
--                   every part of a program keeps
--   OpenClaw        the plugin in examples/openclaw
--     Config        src/config.ts: resolveConfig and its helpers
--     Transport     src/transport-http.ts: the requests to the API
--     Curated       src/curated-sync.ts: Entries (pure helpers), Store (files), Sync (operations).
--                   Calm has what the operations do when no file operation fails, Frame what they
--                   keep; Add, Removed, Replaced and Replace are about whole reconciliations, and
--                   Reconcile about all of them, whatever fails; Format is about the file format
--     Capture       src/capture.ts: which hook events are ingested, with what payload; Outcome is
--                   about the answer, Captured, Payload and Sent about what is sent
--     Recall        src/recall.ts: the context block of an ambient recall
--     DualTransport src/transport.ts: the HTTP API (Http has its own headers, POST and payloads), or
--                   a run of the amm binary (Arguments); Modes is about the first, Local about the
--                   second
--     Plugin        index.ts: the handlers of the registered hooks, and the prompt's query
--   OpenCode        the plugin in examples/opencode/plugins/amm.js: Message (what is read in a
--                   message), State (the three maps), Hooks (the hooks), Process (the processes and
--                   the timers that end them) and Tools (the two tools and shell.env); Steps classes
--                   the ways in which a call changes the state
--     HttpPlugin    examples/api-mode/opencode/amm-http-plugin.ts
--   Release         scripts/release/prepare-helm-chart-release.mjs, of which Main has the run; Version
--                   and Grammar are about the version check, Values about the edit of values.yaml,
--                   and Flags about the arguments
--
-- State and operations. A function with effects is a function of the world that returns a result, or
-- an error that was thrown, and the world afterwards. The world holds the files, the requests sent so
-- far, the processes started, the pending timers, and the module variable `snapshot`. The environment
-- `Env` holds what the programs call and do not contain: the reply to each request, which file
-- operations throw, what a process answers and does to the files, the clock, random names, `process.env`, node:path, SHA-256, and the reading and
-- printing of JSON. Its oracles take the number of effects before, so every behaviour over time is
-- one of them, and the theorems hold for all environments that meet their hypotheses.
-- `IsCalm` (OpenClaw/Curated/Calm) names those hypotheses: no file operation throws, the map file is
-- parsed back as it was printed, and the file names differ. The state of the OpenCode plugin is its
-- three maps and the list of the events that it has ingested, with the times of the calls.
-- The hooks call `ingestEvent`, which starts a process and does not wait: `launch_ingest` is that
-- process, and `Child` and `Step` are what its two timers and its end do to it.
--
-- Bounds and fuel. No function needs fuel: loops are recursions on lists. The numbers of the program
-- (the queue bound of 500, the description bound of 120, the idle throttle of 60000 ms) are those of
-- the sources. A finite number of the language is a signed mantissa over a power of two.
--
-- Not modelled. The Go program, the integrations in other languages and the third-party bundles,
-- and the names, descriptions and messages of the programs. The records of the map file are taken to
-- have the shape that the source casts them to. Directories are left out. A signal is the call of
-- `kill`; what the process does with it is open. Strings are lowered as ASCII, since they are only
-- compared with ASCII words. The product of a number by 1000 is exact. The values of a hook's context
-- are those of JSON. Session ids are strings where they are there.
pub mod Base
pub mod Effects
pub mod OpenClaw
pub mod OpenCode
pub mod Release
