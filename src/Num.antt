-- ===== src/Num.antt =====
-- The package num: numbers defined over a sliding window of time.
pub mod BucketSize
pub mod Ring
pub mod Window
pub mod RollingNumber
pub mod Float
pub mod RollingPercentile
pub mod Rounding
