-- ===== src/Sql.antt =====
-- The SQL statements of the backend: Statements has them with their laws, Keys the laws that a
-- primary key adds.
mod Statements
mod Keys
unfoldable pub use Statements.{update_where, select_where, insert_by, order_by}
unfoldable pub use Keys.{find}
pub use Statements.*
pub use Keys.*
