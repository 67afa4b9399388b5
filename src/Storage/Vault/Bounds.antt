-- ===== src/Storage/Vault/Bounds.antt =====
-- GetCurrentVersion and GetLatestVersion of pkg/storage/vault/vault.go at the bound of int64.
use kaigara.Base.{◌≡◌, ℕ, some, Str, bytes, arith, if◌then◌else◌, leb}
use kaigara.Base.Dict
use kaigara.Base.Dict.{Dict}
use kaigara.Base.Exec.{Outcome, ok, err, bad_number}
use kaigara.Base.Int64.{ℤ, pos, max_int64, Decimal, parse_int64-Decimal}
use kaigara.Value.{Value, json_number}
use kaigara.Vault.{Client}
use kaigara.Storage.Memory.{scope_of}
use kaigara.Storage.Response.{version_of}
use kaigara.Storage.Vault.{Service, metadata_path, get_current_version, get_latest_version}

-- The number where int64 holds it, an error beyond.
abbrev pub int64_or_error : ℕ → Outcome ℤ
int64_or_error n = if leb n max_int64 then ok (pos n) else err bad_number

version_of-Decimal :
    {n : ℕ} {s : Str} → Decimal n s → version_of (some (json_number s)) ≡ int64_or_error n
unfolding version_of
version_of-Decimal {n} decimal = ground (arith, parse_int64-Decimal decimal)

module _ {C : Client} where
  -- The numbers in decimal digits that Vault has sent as the version of what was read, and sends as the latest
  -- one, are the versions that the watcher compares, exactly, up to the largest int64; beyond it there is an
  -- error and no version.
  pub vault_versions_of_digits :
      (app scope : Str) (n latest : ℕ) (digits latest_digits : Str) (metadata fields : Dict Value)
      (s : Service C)
      → Decimal n digits
      → Decimal latest latest_digits
      → scope_of app scope s.metadata ≡ some metadata
      → Dict.lookup (bytes "version") metadata ≡ some (json_number digits)
      → (C.logical_read (metadata_path app scope s) s.world).0 ≡ ok (some fields)
      → Dict.lookup (bytes "current_version") fields ≡ some (json_number latest_digits)
      → ((get_current_version app scope s).0 ≡ int64_or_error n)
        × ((get_latest_version app scope s).0 ≡ int64_or_error latest)
  unfolding get_current_version get_latest_version
  vault_versions_of_digits app scope n latest digits latest_digits metadata fields s decimal
        latest_decimal loaded here answer there =
      let current = version_of-Decimal decimal in
      let last = version_of-Decimal latest_decimal in
      (ground (arith, current, loaded, here), ground (arith, last, answer, there))
