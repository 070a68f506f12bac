-- ===== src/Runtime.antt =====
-- What a handler does as a value: it runs in a world that holds the state of everything outside the
-- program and the log of the calls made on it, and it returns, fails with an error or panics.
mod Effects
mod Monad
mod Keeping
mod Returning
mod Yielding
mod Arriving
pub use Effects.*
unfoldable pub use Monad.*
pub use Keeping.*
pub use Returning.*
pub use Arriving.*
pub use Yielding.*
