-- ===== src/Server/Thread/Ending.antt =====
-- The shutdown of the server thread comes to its end where its transmit channel has room.
use havok_rust.Base.{List}
use havok_rust.Net.{addr_eq}
use havok_rust.Server.{Server}
use havok_rust.Server.Thread.{Thread}
