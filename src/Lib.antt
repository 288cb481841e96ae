-- ===== src/Lib.antt =====
-- egop is a plugin host: an application registers plugins with a manifest (contract.Meta), and the
-- host checks what they declare, keeps a registry of them, wires their events, hooks, functions and
-- configuration, and hands each plugin a view of the host that is cut to its declared capabilities.
--
-- The parts and the files that model them (paths from the repository's root on the right):
--   Prelude           helpers: tests, lists, texts, association lists
--   Contract/Meta     the manifest: Meta, Dependency, SlotSpec, PointID    contract/meta.go
--   Contract/Event    Event, EventFilter.Match, IsFrameworkTopic           contract/contract.go
--   Contract/Glob     globMatch; Spec is the relation it stands for        contract/contract.go
--   Undo              Catcher: Add, Close                                  undo/undo.go
--   Host/State        Host, Options, the interface Plugin                  host/host.go
--   Host/Version      versionAtLeast                                       host/register.go
--   Host/Slots        slotSatisfiedLocked, slotCheck                       host/register.go
--   Host/Check        validateContractLocked, initDepsSatisfiedLocked      host/register.go
--   Host/Hooks        rebuildHookDeclsLocked                               host/register.go
--   Host/Register     Register, RegisterLazy, retryPending                 host/register.go
--   Host/Remove       Remove, Dependents                                   host/register.go, host/host.go
--   Host/Replace      Replace                                              host/register.go
--   Host/Batch        RegisterMany                                         host/batch.go
--   Host/View         Plugins, Functions, CapabilityIndex, Snapshot, Close host/host.go
--   Host/Call         Call, with the checks of input and output            host/call.go
--   Host/Invariant    histories of registrations and removals
--   Bus/Events        MemEvents: Subscribe, Dispatch                       host/memevents.go
--   Bus/Rising        the ids that both buses hand out                     host/memevents.go, host/memhooks.go
--   Bus/Hooks         MemHooks: On, Trigger; Host.TriggerHook              host/memhooks.go, host/call.go
--   Surface           plugSurface, fsGuard, configFieldAllowed             host/surface.go, host/fsguard.go
--   Schema            Validate, validateNode                               schema/schema.go
--   Autoload          Watcher: pollOnceLocked, applyChange, Unload         autoload/autoload.go
--   Remote/Stream     byteStream: Send, Recv                               loader/remote/stream.go
--   Remote/Frame      Frame and the result envelopes                       loader/remote/wire.go
--   Remote/Session    Session: Request, recvLoop, dispatch, closeWith      loader/remote/session.go
-- A part's proofs stand in its child modules; the modules named Tests hold the examples.
--
-- How the parts interact: Register (Host/Register) runs the checks of Host/Check, which ask
-- Host/Slots and Host/Version, enters the functions and the manifest, and rebuilds the table of hook
-- points (Host/Hooks) that TriggerHook (Bus/Hooks) reads. A registration then retries the plugins
-- that wait for their dependencies. Remove takes a plugin and, if asked to, all that hang on it, and
-- closes the undo catcher (Undo) of each. RegisterMany sorts a batch and registers its members one
-- by one. Surface is what a plugin sees of all this. Call (Host/Call) looks a function up in the
-- catalogue and checks its input and output with Validate (Schema). A plugin in another process is
-- reached over a Session (Remote/Session), whose frames (Remote/Frame) travel on a byte stream
-- (Remote/Stream). Plugins in files come and go through the watcher of directories (Autoload).
--
-- A session is run by several goroutines: the callers of Request, the loop that reads, one per request
-- that arrived, and whoever closes it. Remote/Session has one function per stretch of code between two
-- points where another goroutine can act, and Remote/Session/Steps the relation that takes them in
-- every order. The watcher knows the host only as an interface; a run of it (Autoload/Steps) is a
-- sequence of polls, and what a poll finds, reads and can load, and what the host answers, is arbitrary
-- each time.
--
-- Conventions. A Go string is the list of its bytes and `==` on strings is `text_eq`. A Go map is an
-- association list; where the code ranges over a map, the model takes the list's order, one of the
-- orders Go allows. A method of the host is a function from Host to Host with its results; one that
-- holds the mutex is one step, so the interleavings of concurrent calls are the sequences of steps.
-- Calls out of the host (points and topics that a manifest ensures, SetSurface, undo functions,
-- lifecycle events) are appended to the host's trace; code that calls the host back from inside one
-- of them is not modelled, nor are log lines. A plugin is a value with a constant Meta, so CloneMeta
-- is the identity. strings.TrimSpace, which versionAtLeast uses, is modelled on the ASCII spaces.
-- Counters (uint64) have no upper bound.
--
-- Loops that are not structural run on fuel, and `none` says that it ran out. retryPending gets one
-- round more than there are waiting plugins, since a round that registers one leaves fewer of them.
-- The cascade of Remove gets two more than there are plugins, since every round deletes one.
-- RegisterMany gives its pruning one more pass than there are entries, since every pass but the last
-- drops one, and its sort one more round than there are entries, since each is queued once.
--
-- validateNode calls itself on the schemas inside a schema; its fuel is one more than the size of the
-- schema, and more fuel changes nothing. JSON comes decoded, a number by what float64 makes of it.
--
-- Not modelled: SetConfig and what reads a configuration, the catalogue of preset types, redaction, the
-- network guard, the exchange, the HTTP mount, the wasm loader, and of the remote loader the peers on
-- top of a session with the handshake. They do not change the registry but through the operations
-- above. The op encodings of wire.go and the JSON of a Frame are left out too.
pub mod Prelude
pub mod Contract
pub mod Undo
pub mod Host
pub mod Bus
pub mod Surface
pub mod Remote
pub mod Autoload
pub mod Schema
