-- ===== src/Users.antt =====
-- unify_llm/users.py: accounts, points, sessions and API keys over the tables of one database. The
-- children hold the methods of `UserStore`, a family each, and below them what they guarantee.
pub mod Model
pub mod Rows
pub mod Accounts
pub mod Points
pub mod Sessions
mod Tests
pub mod Keys
