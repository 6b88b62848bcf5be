-- ===== src/Request.antt =====
-- src/request.c: the lines of a request, and what is done at the end of its header.
pub mod Logline
pub mod Options
pub mod HeaderEnd
