-- ===== src/Webapi.antt =====
-- jornada/webapi: the text of calendars and address books. A text is a list of code points.
pub mod Chars
pub mod Replace
pub mod Escape
pub mod Fold
pub mod Names
pub mod Lines
mod Examples
