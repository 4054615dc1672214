-- ===== src/Net.antt =====
-- src/network.cpp: what the bot reads of the web. The sockets are not modelled: a reply is the text
-- that a stream holds.
pub mod Url
pub mod Marked
pub mod Decoded
pub mod Ends
pub mod Http
pub mod Chunks
pub mod Ordered
pub mod Headers
pub mod Cookies
pub mod Jar
pub mod Html
pub mod Plain
mod Tests
