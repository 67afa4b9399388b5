-- ===== src/Logs.antt =====
-- pkg/logstream/redis.go: the relay of the child's output, and the heartbeat.
pub mod Relayed
pub mod Connect
use kaigara.Base.{
  ℕ, ◌*◌, Bool, true, false, not, List, [], ◌∷◌, ◌++◌, Str, bytes, length, ltb, if◌then◌else◌,
}

-- publishBufSize
abbrev pub publish_buf_size : ℕ
publish_buf_size = 65536

-- What stream.Read returns: the bytes read, at most as many as the buffer holds, and whether there was an
-- error, io.EOF included.
pub record ReadResult : Type 0 where
  pub content : Str
  pub failed : Bool

-- What was written to stdout, and the messages that were published, in order. An error of publishing is
-- only logged.
pub record Relay : Type 0 where
  pub stdout : Str
  pub messages : List Str

-- `if n > 0`: the write and, where there is a client, the message.
unfoldable pub relay : Bool → Str → Relay → Relay
relay connected [] r = r
relay true (c ∷ s) r = record {
  stdout = r.stdout ++ (c ∷ s);
  messages = r.messages ++ ((c ∷ s) ∷ []);
}
relay false (c ∷ s) r = record r { stdout = r.stdout ++ (c ∷ s) }

-- The loop of Publish over what the reads return, up to the first error.
unfoldable pub publish : Bool → List ReadResult → Relay → Relay
unfolding relay
publish connected [] r = r
publish connected (read ∷ reads) r =
    let rest = publish connected reads (relay connected read.content r) in
    if read.failed then relay connected read.content r else rest

-- What wakes the heartbeat: the channel quit, or ten seconds without it.
pub data Beat : Type 0 where
  quit ten_seconds : Beat

-- The commands to Redis, on the key of the service; a lifetime is in seconds.
pub data Command : Type 0 where
  set_key : Str → ℕ → Command
  expire_key : Str → ℕ → Command
  delete_key : Str → Command

abbrev pub service_key : Str → Str
service_key name = bytes "service." ++ name

unfoldable pub beats : Str → List Beat → List Command
beats key [] = []
beats key (quit ∷ more) = delete_key key ∷ []
beats key (ten_seconds ∷ more) = expire_key key 20 ∷ beats key more

-- HeartBeat: without a client it sends nothing.
unfoldable pub heart_beat : Bool → Str → List Beat → List Command
unfolding beats
heart_beat false name events = []
heart_beat true name events = set_key (service_key name) 20 ∷ beats (service_key name) events
