-- ===== src/Format.antt =====
-- src/hx_clog_format.c: the pattern engine and the JSON formatter, and the retry of
-- src/hx_clog_core.c that sizes a line's buffer by them.
pub mod Appender
pub mod View
pub mod Buffer
pub mod Record
pub mod Json
pub mod Pattern
pub mod Decimal
pub mod Retry
mod Tests
