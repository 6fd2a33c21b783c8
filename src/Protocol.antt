-- ===== src/Protocol.antt =====
-- What a client and the server say to each other: lib/client.h and the commands of lib/server.h.
--
-- A text is a list of bytes. The sockets and the loop over their events are left out: what one `recv` or
-- `read` gives of a message, and the sizes of the buffers, are a parameter.
pub mod Strings
pub mod Requests
pub mod Replies
pub mod Commands
