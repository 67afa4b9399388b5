-- ===== src/Encryptor/Interface.antt =====
-- pkg/encryptor/types: the Encryptor interface. An implementation may consume randomness or call a
-- server, so it works on a world of its own.
use kaigara.Base.{◌≡◌, Str}
use kaigara.Base.Exec.{Exec, ok}

pub record Encryptor : Type 1 where
  pub World : Type 0
  pub encrypt : Str → Str → Exec World Str
  pub decrypt : Str → Str → Exec World Str

-- What was encrypted for an application decrypts to itself for that application, at any later world.
pub record IsFaithful (E : Encryptor) : Type 0 where
  pub opens :
      (p app : Str) {c : Str} (w : E.World)
      → (E.encrypt p app w).0 ≡ ok c
      → (later : E.World) → (E.decrypt c app later).0 ≡ ok p
