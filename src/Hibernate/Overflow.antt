-- ===== src/Hibernate/Overflow.antt =====
-- An idle timeout that int64 cannot hold in nanoseconds.
use quetzal.Models.Server.{Server}
use quetzal.Store.Db.{Db}
