-- ===== src/World.antt =====
-- What the services act on. `World` is the state: the database, Redis, and the messages that have
-- gone to the Server. `Env` is what the source calls and does not implement: which of the calls to
-- the outside fail, what the database and Redis answer, hashes, tokens and random values.
mod Monad
mod Sql
mod Tables
mod Cache
pub mod Laws
pub mod Inversion
pub use Monad.*
pub use Sql.*
pub use Tables.*
pub use Cache.*
