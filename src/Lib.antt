-- ===== src/Lib.antt =====
-- The Python SDK of Brain, python/src/brain_db_sdk: a model of the parts that carry its own logic.
--
-- A request leaves the SDK as a frame (wire/frame.py): a header of 32 bytes with two CRC32C
-- checksums (wire/crc32c.py), and a payload that starts with a CBOR item (wire/cbor.py). The frames
-- go over a byte stream (transport.py), from which a reader takes whole frames again and routes each
-- by its stream to the request that waits for it (mux.py). A caller may wrap a request in a retry
-- (retry.py), which asks the error (errors.py) whether a further attempt can help.
--
--   Prelude     names of the libraries, Boolean tests, lists, bits and big-endian bytes
--   Wire/Crc32c  python/src/brain_db_sdk/wire/crc32c.py: table and checksum; `Reference` has the
--               bit-by-bit definition, `Linear` and `Detect` the algebra of the register
--   Wire/Frame  python/src/brain_db_sdk/wire/frame.py: `encode_frame`, `decode_frame`; `Layout` has
--               the bytes of a header in a line, `Sound` what an accepted header satisfies
--   Wire/Cbor   python/src/brain_db_sdk/wire/cbor.py: the scanner `_cbor_item_end`; `Items` has the
--               data items of RFC 8949 and their encoding, against which `Nesting` measures the
--               scanner
--   Wire/Value  the values that the CBOR library packs and unpacks, and how a class reads its fields
--   Wire/Payload  python/src/brain_db_sdk/wire/types.py: `encode_payload`, `decode_payload` over
--               `from_cbor` of wire/cbor.py, and the payload classes, by their place in the protocol, each as a `Payload` of its methods
--   Wire/Opcode  python/src/brain_db_sdk/wire/opcode.py: the opcodes
--   Transport   python/src/brain_db_sdk/transport.py: `write_frame`, `read_frame`; the socket is the
--               script of what its `recv` calls give
--   Errors      python/src/brain_db_sdk/errors.py: the exceptions, `is_retryable`
--   Retry       python/src/brain_db_sdk/retry.py: `RetryPolicy`, `sleep_before_retry`, `with_retry`
--   Mux         python/src/brain_db_sdk/mux.py: `MuxConnection`; `Routes`, `Invariant` and `Waiting`
--               have the table of routes and its queues, `Delivery` what a request answers,
--               `StreamIds` the ids, `Sending` what is written, `Handshake` and `Subscribe` those
--               parts of the class
--   Http        python/src/brain_db_sdk/http: `Requests` has `_request` of client.py with its retries
--               (`Backoff`, of retry.py) and errors (`Errors`), `Feed` the change feed of sse.py
--   Client      python/src/brain_db_sdk/client.py: the verbs over a connection; `MemoryVerbs`,
--               `GraphVerbs`, `AdminVerbs` and `ListVerbs` have the opcodes and classes of each, `Served`
--               and `Recalled` what they return
--   Pool        python/src/brain_db_sdk/pool.py: `connect_with`, `get`, `get_healthy` over an abstract
--               client
--
-- Bytes are natural numbers below 256 (`IsByte`); a `bytes` value is a list of them, and an offset
-- into one is the list of the bytes from there on. An exception is an error value, with one
-- constructor for each class that the code raises. Threads are events: while a request waits, the
-- reader receives frames or fails, and other threads register and drop streams, in any order that a
-- list can give; the list ends when the deadline is over. The retry loop has one unit of fuel for
-- each attempt and one more. The scanner recurses on fuel, four units for
-- each byte and four more: an item takes at least a byte, and no more than four calls but for those
-- on the items within it.
-- A float of a payload is the number of its 64 bits, and a payload's map has its floats as they are:
-- `round_f32` is done on the map, with `struct` as a parameter. A delay of the retry policies is whole
-- milliseconds, and the clock waits for any delay that is not negative.
--
-- Not modelled: sockets, threads and clocks themselves, the CBOR library, and the text of messages,
-- which are not this code's or which no caller's behaviour depends on; of this code the canonical CBOR
-- encoder and the request with a trailing vector, the verbs of the HTTP client and the classes of
-- their results, the set-up and the closing of connections and pools, and the asyncio tier, which
-- repeats the one modelled here.
pub mod Prelude
pub mod Wire
pub mod Transport
pub mod Errors
pub mod Retry
pub mod Mux
pub mod Pool
pub mod Http
pub mod Client
