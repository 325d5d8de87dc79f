-- ===== src/Http.antt =====
-- python/src/brain_db_sdk/http: the client of the HTTP edge: its errors, its retries, the request that every
-- verb makes, and the change feed.
pub mod Json
pub mod Errors
pub mod Backoff
pub mod Requests
pub mod Feed
