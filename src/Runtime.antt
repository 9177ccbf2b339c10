-- ===== src/Runtime.antt =====
-- nwep/runtime.py: the managed layer. Each handle lives on an owner thread; asyncio holds futures.
-- Threads are interleavings: a step function takes one action of one thread at a time.
pub mod ClientOwner
pub mod StreamOwner
pub mod Line
pub mod Answering
pub mod Opening
pub mod Hosting
pub mod Starting
pub mod ServerOwner
pub mod Metadata
