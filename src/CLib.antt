-- ===== src/CLib.antt =====
-- What the sources use of the C language and its library: runs that may exit or fault, and
-- strings in fixed buffers.
mod Run
mod Str
mod Token
mod Number
pub mod StrLaws
pub mod BufferLaws
pub mod TokenLaws
pub mod NumberLaws
pub use Run.*
unfoldable pub use Str.*
unfoldable pub use Token.*
unfoldable pub use Number.*
