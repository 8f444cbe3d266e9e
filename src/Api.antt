-- ===== src/Api.antt =====
-- internal/api: the handlers of the HTTP server, one function each. `c.Bind` and the routing are the
-- web framework's: a handler is given the parsed request, `none` where it does not parse.
pub mod Interfaces
pub mod Stream
pub mod Reply
pub mod Jobs
pub mod Projects
pub mod Locking
pub mod Unlocking
pub mod Review
pub mod Creation
pub mod State
pub mod Routes
pub mod Table
pub mod Answering
