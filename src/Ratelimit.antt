-- ===== src/Ratelimit.antt =====
-- internal/ratelimit: fixed-window counters by key.
pub mod Limiter
pub mod Ip
pub mod Windows
pub mod Budget
pub mod Network
