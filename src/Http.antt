-- ===== src/Http.antt =====
-- src/http: the routes of the server.
mod Tests
pub mod Route
pub mod RouteFill
pub mod Router
pub mod RouterMatch
pub mod Query
pub mod QueryRound
