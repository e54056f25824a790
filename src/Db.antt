-- ===== src/Db.antt =====
-- The database as the services see it: enums and rows (src/database/schema), the tables of one
-- state, and a request as a computation on them.
mod Enums
mod Rows
mod Tables
mod Transaction
mod Frames
mod Loops
unfoldable pub use Enums.*
unfoldable pub use Rows.*
unfoldable pub use Tables.*
unfoldable pub use Transaction.*
unfoldable pub use Frames.*
unfoldable pub use Loops.*
