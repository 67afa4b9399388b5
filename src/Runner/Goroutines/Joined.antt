-- ===== src/Runner/Goroutines/Joined.antt =====
-- What is behind kaigaraRun when it returns.
use kaigara.Base.{◌≡◌, refl, ap, ◌∙◌, ℕ, Bool, true, false, some, List, [], ◌∷◌, ◌++◌, Str, All}
use kaigara.Logs.{
  Beat, quit, ten_seconds, Command, set_key, expire_key, delete_key, service_key, beats, heart_beat,
}
use kaigara.Runner.ExitCode.{WaitError, exit_code}
use kaigara.Runner.Goroutines.{System, returned, stopped, started, Steps}
use kaigara.Runner.Goroutines.Invariant.{Reach-Inv}

-- One renewal of the key for every beat.
abbrev pub renewals : Str → List Beat → List Command
renewals key [] = []
renewals key (b ∷ rounds) = expire_key key 20 ∷ renewals key rounds

beats-quit :
    (key : Str) (rounds more : List Beat)
    → All (λ b. b ≡ ten_seconds) rounds
    → beats key (rounds ++ (quit ∷ more)) ≡ renewals key rounds ++ (delete_key key ∷ [])
unfolding beats
beats-quit key [] more h = refl
beats-quit key (b ∷ rounds) more (is, h) =
    rw is (ap (λ t. expire_key key 20 ∷ t) (beats-quit key rounds more h))

-- When kaigaraRun returns, the child has ended and was waited for, its code is that of what Wait reported,
-- no goroutine that writes to stdout or to Redis is left, and the heartbeat's last command, after its
-- renewals, has deleted its key.
pub returned_lem :
    (connected : Bool) (name : Str) (code : ℕ) (s : System)
    → Steps connected started s
    → s.main ≡ returned code
    → ((e : WaitError) × (s.status ≡ some e) × (code ≡ exit_code e))
      × (s.out.publishing ≡ false)
      × (s.errors.publishing ≡ false)
      × (s.heart ≡ stopped)
      × ((rounds : List Beat) × (heart_beat true name s.beats
            ≡ set_key (service_key name) 20
              ∷ (renewals (service_key name) rounds ++ (delete_key (service_key name) ∷ []))))
unfolding heart_beat
returned_lem connected name code s reached stage =
    let inv = Reach-Inv reached in
    let (heart, _, out, errors, e, is, code_is) = rw stage at inv.phase in
    let (rounds, each, heard) = rw heart at inv.heard in
    (
      (e, is, code_is),
      out,
      errors,
      heart,
      (
        rounds,
        ap (λ t. set_key (service_key name) 20 ∷ t)
            (ap (beats (service_key name)) heard ∙ beats-quit (service_key name) rounds [] each),
      ),
    )
