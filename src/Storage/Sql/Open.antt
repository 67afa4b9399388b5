-- ===== src/Storage/Sql/Open.antt =====
-- NewStorageService and Close of pkg/storage/sql/sql.go, over pkg/database and gorm.
use kaigara.Base.{Option, none, some, [], ◌++◌, Str, bytes}
use kaigara.Base.Exec.{Exec, Outcome, ok, err, pure, lift, db_migrate, ◌>>=◌}
use kaigara.Encryptor.{Encryptor}
use kaigara.Storage.Gorm.{Gorm}
use kaigara.Storage.Sql.{StorageService}

-- database.Connect to the database of a name, gorm's AutoMigrate, with its error if there is one, and the
-- connection pool behind a database.
pub record Driver (G : Gorm) : Type 1 where
  pub World : Type 0
  pub connect : Str → Exec World G.Db
  pub auto_migrate : G.Db → Exec World (Option Str × G.Db)
  pub Pool : Type 0
  pub pool_of : G.Db → Exec World Pool
  pub close_pool : Pool → Exec World (Unit {0})

module _ {G : Gorm} (D : Driver G) (E : Encryptor) where
  -- The name of the database of a deployment.
  unfoldable pub database_name : Str → Str
  database_name deployment = bytes "kaigara_" ++ deployment

  unfoldable pub migrated : E.World → Option Str × G.Db → Outcome (StorageService G E)
  migrated world (none, db) = ok (record { db = db; ds = []; world = world })
  migrated world (some m, db) = err (db_migrate m)

  -- A new service has loaded nothing.
  unfoldable pub new_storage_service : Str → E.World → Exec D.World (StorageService G E)
  unfolding database_name migrated
  new_storage_service deployment world = do
    db ← D.connect (database_name deployment)
    migration ← D.auto_migrate db
    lift (migrated world migration)

  -- Close, where a service that is nil, or has no database, is none.
  unfoldable pub close : Option G.Db → Exec D.World (Unit {0})
  close none = pure tt
  close (some db) = do pool ← D.pool_of db; D.close_pool pool
