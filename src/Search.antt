-- ===== src/Search.antt =====
-- prebuilt/app-prebuilt-search/src/app_prebuilt_search: semantic search over an application's data.
-- Projection brings the vector store in step with a snapshot of the source, Filters are the declared
-- filters, Engine has synchronisation and status, and Retrieval the search loop.
pub mod Schemas
pub mod Projection
pub mod Filters
pub mod Retrieval
pub mod Snapshots
pub mod Engine
pub mod Shelf
pub mod Examples
