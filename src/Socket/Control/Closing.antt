-- ===== src/Socket/Control/Closing.antt =====
-- `close` of a socket descriptor.
use shmsock.Machine.{Connection}
