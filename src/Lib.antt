-- ===== src/Lib.antt =====
-- Thorn: the durable runtime of an agency, the authorization at its gateway, the access and
-- validation state of a session, and the guards of its agent loop, as executable definitions with
-- their correctness theorems.
--
-- The program runs agents that are prompted by notifications. Each notification is one file of a
-- durable queue; an inbox of a session is such a queue, and so is the queue of a service. A source
-- posts; the scheduler runs prompt rounds while the inbox has open items; the agent closes an item
-- by a transition, which moves it to the queue it replies to, deletes it or parks it; a sweep at
-- startup repairs what a crash left between the two steps of a transition. Before anything is
-- posted, the gateway decides whether the actor behind an event may reach a session at all. Within
-- a prompt, the agent loop runs rounds of tool calls; after each it asks whether the round made
-- progress, for which it recognizes validation commands and compares their outcomes, and it raises
-- when too many rounds in a row made none, or were the same.
--
-- Files, and the sources that they model (paths from the repository's root):
--   Prelude         Boolean tests, lists, texts as code points, dicts, sorting.
--   Errors          Python's exceptions as values of a result type.
--   Runtime/World   what operations act on: directories by path, the set of keys in flight
--                   (src/thorn/runtime/_in_flight_index.py) and the identifier generator's state;
--                   and the monad of methods that may raise and keep what they did before.
--   Runtime/Address src/thorn/runtime/_address.py: addresses, their texts (RoundTrip), the
--                   address book (Book).
--   Runtime/Ulid    src/thorn/runtime/_notification.py, _generate_ulid; its order in Order.
--   Runtime/Notification  the same file's records and transitions of fields; the completion
--                   rationale and its checks in Rationale (Complete).
--   Runtime/Queue   src/thorn/runtime/_queue.py: DurableQueue. Lookups after each operation are
--                   in View, Moves, Ends and Post.
--   Runtime/Inbox   src/thorn/runtime/_inbox.py: SessionInbox; lookups after parking in Parking.
--   Runtime/Dispatch  src/thorn/runtime/_dispatch.py: the two steps of a transition; step two in
--                   Outcomes, both together in Transition.
--   Runtime/NotificationQueue  src/thorn/runtime/_notification_queue.py: handlers and draining
--                   (Draining).
--   Runtime/Rebuild src/thorn/runtime/_in_flight_index.py: the keys in flight at startup (Keys).
--   Runtime/Sweep   src/thorn/runtime/_sweep.py: startup, and crashed transitions (Recovery).
--   Runtime/ProviderHealth  src/thorn/runtime/_provider_health.py: the circuit breaker; runs of
--                   it, as a step relation, in Run.
--   Runtime/Scheduler  src/thorn/runtime/_scheduler.py: one prompt round (Rounds), the counter of
--                   the progress guard over many rounds (Progress, Runs), submit and shutdown (Submit).
--   Runtime/Todo    src/thorn/runtime/_todo.py: TODO items and their data (Item), the operations on
--                   a session's list (Store), what is read back after them (Stored), and the
--                   summaries by inbox item (Links).
--   Gateway/Event, Gateway/Peer  src/thorn/gateway/_actor.py, _event.py and _peer.py: actors,
--                   events, and the registry of peers (Accounts, Lookup, Owner).
--   Gateway/Envelope src/thorn/gateway/_envelope.py: envelopes of untrusted text, and the lines that
--                   a reader sees of one (Quoted).
--   Gateway/Policy  src/thorn/gateway/_trigger_policy.py: the decision on an event (Rules).
--   Gateway/Formatter src/thorn/gateway/_formatter.py: what an event's authorization and its
--                   envelopes make of it (Labels, Content).
--   Core/FileAccess src/thorn/core/_file_access.py: access levels, ceilings, ignore files
--                   (Levels).
--   Core/ValidationTracker  src/thorn/core/_validation_tracker.py: effective status (Passing,
--                   Fuel), snapshots and refreshes (Staleness).
--   Core/Convergence  src/thorn/core/_validation_convergence.py: what a validation command is
--                   (Identity, Command), the trackers of repeated validations (Tracker, Content),
--                   the action tracker against its history (History, Progress) and against the
--                   content tracker (Content/Simulation).
--   Core/ShellInspection  src/thorn/core/_shell_inspection.py: the commands that read and search
--                   (Words, Ranges, Command), and what they may still run (ReadOnly).
--   Core/Loop       src/thorn/core/_loop.py: what a round of tool calls did (Round, Progress), the
--                   no-progress guard (Guard, Stretch), the repetition guard (Repetition, Alike), and an
--                   agent that repeats one validation, through all of them (Repeats).
--   Tests           each theorem at a concrete input.
--
-- Correspondence. A class with state is a record, a method a function that takes and returns it,
-- under the method's name; a method that may raise is an Exec or a Result. A path is the list of
-- its components and a directory an association list; os.replace is a removal and a write in one
-- step, so that no run stops between the two; no directory stands under the name of a
-- notification's file or of its sidecar. A file holds the notification written to it, which loads
-- unless one of its addresses does not, or the exception that its reading raises. A text is its code points. Numbers are naturals;
-- seconds are numbers of one small unit, and a subtraction stops at zero where the source takes a
-- maximum with zero. No number overflows; what depends on a float's range is stated within it.
--
-- Parameters stand for code that is not the program's: the dispatcher, saver and evictor of a
-- driver, the handlers of a queue, path resolution, the reading of a text as a path, pathspec's
-- matching of one pattern, and the scan of files for checksums; and of Python's library json,
-- shlex, PurePath, str.lower, hashlib and the Unicode tables, which Core/Loop bundles in one record
-- (External). What Path.rglob lists, the clock and the random source, of which the nonces of
-- envelopes are drawn, are arguments.
--
-- Fuel. Only effective_status recurses on fuel: two levels more than there are targets, which is
-- enough since each level but the last two visits a target that was not visited before. All other
-- loops are structural.
--
-- Not modelled: asyncio's scheduling and cancellation (what runs under a lock is one step), the
-- writing of JSON and YAML texts, the collection of workspace snapshots, logging, the language
-- models' providers, tools, sandboxes, configuration and the command line.
pub mod Prelude
pub mod Errors
pub mod Runtime
pub mod Gateway
pub mod Core
pub mod Tests
