-- ===== src/Api.antt =====
-- The data that the controller works on.
mod Objects
mod Types
mod Keys
mod Equality
pub use Objects.*
pub use Types.*
unfoldable pub use Keys.*
unfoldable pub use Equality.*
