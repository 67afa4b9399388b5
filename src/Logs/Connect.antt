-- ===== src/Logs/Connect.antt =====
-- NewRedisClient of pkg/logstream/redis.go, GetEnv of pkg/utils/env.go, and cmd/kaitail/kaitail.go, which
-- prints what is published.
use kaigara.Base.{Bool, true, false, Option, none, some, List, [], ◌∷◌, ◌++◌, Str, bytes}
use kaigara.Base.Exec.{Exec, Outcome, pure, abort, nil_dereference, must, ◌>>=◌, ◌>>◌}

-- go-redis: the options of a URL, and a ping of the server that they name.
pub record Redis : Type 1 where
  pub Options : Type 0
  pub parse_url : Str → Outcome Options
  pub ping : Options → Outcome (Unit {0})

-- Whether there is a client: none without a URL. Errors panic.
unfoldable pub new_redis_client : (R : Redis) → Str → Exec Unit Bool
new_redis_client R [] = pure false
new_redis_client R (c ∷ url) = do
  options ← must (λ w. (R.parse_url (c ∷ url), w))
  must (λ w. (R.ping options, w))
  pure true

-- GetEnv, over the environment of the process
unfoldable pub get_env : (Str → Option Str) → Str → Str → Str
get_env environ key fallback = elim (environ key) [ some value ↦ value | none ↦ fallback ]

-- initLogStream of cmd/kaigara/kaigara.go: os.Getenv gives the empty text where nothing is set.
unfoldable pub init_log_stream : (R : Redis) → (Str → Option Str) → Exec Unit Bool
unfolding new_redis_client get_env
init_log_stream R environ = new_redis_client R (get_env environ (bytes "KAIGARA_REDIS_URL") [])

pub record Message : Type 0 where
  pub channel : Str
  pub payload : Str

-- The flag -n puts the channel in front.
unfoldable pub message_line : Bool → Message → Str
message_line true m = m.channel ++ (bytes ": " ++ (m.payload ++ (b'\n' ∷ [])))
message_line false m = m.payload ++ (b'\n' ∷ [])

-- The loop over the messages that the subscription delivers.
unfoldable pub print_messages : Bool → List Message → Str
unfolding message_line
print_messages show_name [] = []
print_messages show_name (m ∷ messages) =
    message_line show_name m ++ print_messages show_name messages

-- Subscribe, without a client, dereferences nil.
unfoldable pub subscribed : Bool → Bool → List Message → Exec Unit Str
unfolding print_messages
subscribed false show_name messages = abort nil_dereference
subscribed true show_name messages = pure (print_messages show_name messages)

unfoldable pub kaitail : (R : Redis) → (Str → Option Str) → Bool → List Message → Exec Unit Str
unfolding new_redis_client get_env subscribed
kaitail R environ show_name messages = do
  connected ←
      new_redis_client R
        (get_env environ (bytes "KAIGARA_REDIS_URL") (bytes "redis://localhost:6379/0"))
  subscribed connected show_name messages
