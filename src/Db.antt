-- ===== src/Db.antt =====
-- src/db: addresses and URLs (db/utils), and the queries to the roulette service (dbquery.h, .cpp).
mod Types
pub mod Exceptions
pub mod Key
pub mod Address
pub mod UrlBuilder
pub mod Query
pub mod Roulette
unfoldable pub use Types.*
