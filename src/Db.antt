-- ===== src/Db.antt =====
-- The tables of internal/schema/schema.sql as the store layer reads and writes them, and the monad of
-- its operations. A time column holds whole seconds, which RFC 3339 text in UTC orders alike; the
-- empty text of `lease_until` is 0, which every time has reached. NULL is `none`.
mod Records
mod Rows
mod Monad
pub mod Respects
pub mod Reads
pub mod Keeps
pub mod Inversion
pub use Records.*
pub use Rows.*
unfoldable pub use Monad.{◌>>=◌}
pub use Monad.*
