-- ===== src/Config/CmdEnv/Reloaded.antt =====
-- What reaches the child of an entry that went through the JSON column of the SQL storage.
use kaigara.Base.{◌≡◌, refl, true, false, Option, none, some, Str, bytes}
use kaigara.Value.{
  Value, null, bool, text, json_number, int64, int, float64, seq, mapping, reload, to_json, of_json,
}
use kaigara.Config.CmdEnv.{entry_text}

-- Texts and Booleans, and nothing else.
abbrev pub survives : Value → Option Str
survives (text s) = some s
survives (bool true) = some (bytes "true")
survives (bool false) = some (bytes "false")
survives _ = none

-- Of the values of an SQL store, which are read back from JSON, texts and Booleans reach the child; a number
-- is skipped, as it comes back as a float64, whatever it was when it was saved.
pub entry_text-reload : (v : Value) → entry_text (some (reload v)) ≡ survives v
unfolding entry_text reload to_json of_json
entry_text-reload null = refl
entry_text-reload (bool true) = refl
entry_text-reload (bool false) = refl
entry_text-reload (text s) = refl
entry_text-reload (json_number s) = refl
entry_text-reload (int64 n) = refl
entry_text-reload (int n) = refl
entry_text-reload (float64 x) = refl
entry_text-reload (seq xs) = refl
entry_text-reload (mapping fs) = refl
