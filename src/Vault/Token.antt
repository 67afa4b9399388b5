-- ===== src/Vault/Token.antt =====
-- startRenewToken of pkg/storage/vault/vault.go and of pkg/encryptor/transit/transit.go, which differ in
-- what they log, and the making of a client with it.
use kaigara.Base.{Bool, true, false, Option, none, some, List, [], ◌∷◌, Str, bytes}
use kaigara.Base.Dict
use kaigara.Base.Dict.{Dict}
use kaigara.Base.Exec.{Exec, ok, pure, abort, must, ◌>>=◌, ◌>>◌, nil_dereference}
use kaigara.Value.{Value, bool}

-- Vault's client, as far as its token goes.
pub record Tokens : Type 1 where
  pub World : Type 0
  -- api.NewClient for an address, with the token set
  pub new_client : Str → Str → Exec World (Unit {0})
  -- Auth().Token().Lookup: the Data of the Secret, none for a nil Secret
  pub lookup_token : Str → Exec World (Option (Dict Value))
  -- NewLifetimeWatcher for the token, renewable
  pub new_watcher : Bool → Str → Exec World (Unit {0})
  -- go watcher.Start()
  pub start_watcher : World → World

-- `v.(bool)`, with false where there is none
unfoldable pub is_renewable : Option Value → Bool
is_renewable (some (bool b)) = b
is_renewable _ = false

-- What the goroutine of the renewal gets: a renewal, or the end of the watcher.
pub data Renewal : Type 0 where
  renewed finished : Renewal

-- Whether the goroutine has returned.
unfoldable pub renew_loop : List Renewal → Bool
renew_loop [] = false
renew_loop (renewed ∷ more) = renew_loop more
renew_loop (finished ∷ more) = true

module _ (T : Tokens) where
  unfoldable pub watch_token : Bool → Str → Exec T.World (Unit {0})
  watch_token false token = pure tt
  watch_token true token = do T.new_watcher true token; (λ w. (ok tt, T.start_watcher w))

  unfoldable pub renew_found : Str → Option (Dict Value) → Exec T.World (Unit {0})
  unfolding watch_token is_renewable
  renew_found token none = abort nil_dereference
  renew_found token (some fields) =
      watch_token (is_renewable (Dict.lookup (bytes "renewable") fields)) token

  unfoldable pub start_renew_token : Str → Exec T.World (Unit {0})
  unfolding renew_found
  start_renew_token token = do secret ← T.lookup_token token; renew_found token secret

  -- What NewService and NewVaultEncryptor do once they have an address and a token.
  unfoldable pub connect : Str → Str → Exec T.World (Unit {0})
  unfolding start_renew_token
  connect addr token = do must (T.new_client addr token); must (start_renew_token token)
