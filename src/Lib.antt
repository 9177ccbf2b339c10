-- ===== src/Lib.antt =====
-- nwep: the Python binding of libnwep, the WEB/1 protocol library.
--
-- The program. nwep/_sys.py declares the C functions; all other modules are Python over them.
-- nwep/errors.py turns return codes into exceptions, nwep/wire.py holds the enums of the wire tokens,
-- nwep/message.py reads messages and builds header arrays. nwep/client.py and nwep/server.py own the
-- driven objects: a client, a handshake, a response, a stream; a server, and the request and responder
-- of one dispatch. nwep/cache.py owns a response cache. nwep/runtime.py is the managed model: a thread
-- per client, server or stream, fed from asyncio by a queue. nwep/identity.py owns private keys,
-- nwep/address.py and nwep/uri.py are values. nwep/dht.py resolves node ids over a server's socket.
-- nwep/log.py owns the trust log and serves it from a server's handler, and nwep/trust checks and
-- makes the checkpoints over it.
--
-- The files.
--   Prelude        lists and integers over the native numbers, passed on to every file.
--   Errors         nwep/errors.py: the table, the classes, `from_code`, `check`, and `except`.
--                  Errors.Codes has the theorems on codes and families.
--   Sys            nwep/_sys.py: one constructor for each declared C function that the models call. An
--                  `Abi` answers a call from the calls made before; it stands for the C library, the
--                  network and the peer, and every model takes it as a parameter.
--                  Sys.Exec is a method: object and calls in, a result or an exception, object and
--                  calls out. Sys.Handles says which objects a call touches and which it frees.
--   Text           `str.encode` and `bytes.decode` in UTF-8, a `str` being its list of code points.
--   Wire, Message  nwep/wire.py and nwep/message.py. A generator of headers is a list; the loop over
--                  `nwep_message_header_at` runs on fuel: one more than the number of headers that C
--                  lists is enough (Message.Headers). All else is structural recursion.
--   Client         nwep/client.py, a file for each class: Response, Driven (`Client`), Connecting,
--                  Stream; the theorems of each stand below it.
--   Server         nwep/server.py: Request, Responder, the other methods of a server (Loop) and
--                  `ServerBuilder.build` (Building). Handler has any handler as a tree of calls on its
--                  request and responder, and of dispatches of a log server or an anchor node over
--                  them, and the trampoline that C calls.
--   Cache          nwep/cache.py.
--   Shamir         nwep/shamir.py.
--   Identity       nwep/identity.py. A key pair is the address of its C memory; wiping it is what
--                  freeing is to other objects.
--   Address, Uri   nwep/address.py and nwep/uri.py.
--   Dht            nwep/dht.py.
--   Log            nwep/log.py: Entries, Tree (`Log`) and Serving (`LogServer`).
--   Trust          nwep/trust: Bls, Checkpoint, Store and Anchor, a file for each of its files. Sizes is
--                  about the blobs and keys that go to C without a length (Sys.Sizes).
--   Loader         the search for the shared library in nwep/_sys.py.
--   Runtime        nwep/runtime.py. ClientOwner has `AsyncClient` and the owner thread of
--                  `_connect_async` as one state with an action for each atomic step of the asyncio
--                  side, the owner and the loop's callbacks; a schedule is a list of actions, one that
--                  cannot happen being passed over.
--                  Opening is what the owners of both do up to their loops.
--                  StreamOwner has the owner of a streamed read and its consumer in the same way.
--                  The managed server is in three parts: Starting is `_serve` up to its loop, Hosting
--                  the server and DHT of the owner with `_resolve_blocking`, ServerOwner the loop, its
--                  commands and `RunningServer`. The clocks' readings are inputs; those of a resolve
--                  are a list, one for each turn of its loop, and a list that reaches the deadline is
--                  enough.
--   Examples       the programs under examples: the thread of a driven server and its `stop` (Driven, from
--                  _common.py), the handler and the loop's work of nwcurl.py, nwkv.py and nwproxy.py
--                  (Nwcurl, Nwkv, Nwproxy), and the handlers of nwserve.py, nwdrop.py and nwlog.py
--                  (Handlers). Globals and the variables of `main` are the state. A handler runs
--                  inside a tick, on the thread of the loop. The loop of nwcurl over the body runs on
--                  fuel: C takes at least a byte in each round but the last, so one more than the length
--                  of the body is enough. The clock of nwproxy is a function of the calls made so far.
--   Tests          the theorems applied to concrete inputs, and a C library that answers them.
--
-- Bounds. Integer arguments are taken to be in the C range of their parameter, beyond which cffi
-- raises. A failure to allocate is not modelled. Lengths, ids, times and pointers are natural numbers;
-- the times are those that the program passes, not negative.
--
-- Not modelled. The C library. The messages of exceptions, `__repr__` and `__hash__`. Signals and a
-- keyboard interrupt. When the interpreter runs a finalizer: `finalize` is what `__del__` does, and no
-- schedule calls it. The `select` of an owner's loop and the `sleep` of a driven thread, which change no
-- state. The hook of a log server, which C calls. The `main` of the programs under examples, which
-- calls clients in a row and prints, and the examples of the managed classes. The re-exports of
-- nwep/__init__.py, the stubs and the tests.
pub mod Prelude
pub mod Errors
pub mod Sys
pub mod Text
pub mod Wire
pub mod Message
pub mod Client
pub mod Server
pub mod Cache
pub mod Shamir
pub mod Identity
pub mod Address
pub mod Uri
pub mod Loader
pub mod Dht
pub mod Log
pub mod Trust
pub mod Runtime
pub mod Examples
pub mod Tests
