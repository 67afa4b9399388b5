-- ===== src/Runner/ExitCode.antt =====
-- exitCode of cmd/kaigara/kaigara.go
use kaigara.Base.{
  ℕ, zero, suc, true, ◌+◌, ◌≡◌, ◌↔◌, refl, Bool, false, Option, none, some, arith, if◌then◌else◌,
}
use kaigara.Base.Int64.{ℤ, pos, negsuc}

-- syscall.WaitStatus, as far as it is asked
pub record WaitStatus : Type 0 where
  pub signaled : Bool
  pub signal : ℕ

-- What exec.Cmd.Wait reports: nil, an ExitError with its status, if it has one, and its exit code,
-- or another error.
pub data WaitError : Type 0 where
  no_error : WaitError
  exit_error : Option WaitStatus → ℤ → WaitError
  other_error : WaitError

abbrev code_or_one : ℤ → ℕ
code_or_one (pos n) = n
code_or_one (negsuc n) = 1

unfoldable pub exit_code : WaitError → ℕ
exit_code no_error = 0
exit_code other_error = 1
exit_code (exit_error none code) = code_or_one code
exit_code (exit_error (some status) code) =
    if status.signaled then 128 + status.signal else code_or_one code

-- A clean end: no error, or code 0 of a child that no signal ended.
abbrev pub IsClean : WaitError → Type 0
IsClean no_error = Unit
IsClean other_error = ⊥
IsClean (exit_error none code) = code ≡ pos 0
IsClean (exit_error (some status) code) = (status.signaled ≡ false) × (code ≡ pos 0)

-- Kaigara exits with 0 exactly when the child has ended cleanly: Wait reports no error, or an exit
-- with code 0 that no signal caused.
pub exit_code-eq-zero_iff : (e : WaitError) → (exit_code e ≡ 0) ↔ IsClean e
unfolding exit_code
exit_code-eq-zero_iff no_error = (λ h. tt, λ h. refl)
exit_code-eq-zero_iff other_error = (λ h. absurd (omega arith), λ h. absurd h)
exit_code-eq-zero_iff (exit_error none (pos n)) = (λ h. ground arith, λ h. ground arith)
exit_code-eq-zero_iff (exit_error none (negsuc n)) = (λ h. ground arith, λ h. ground arith)
exit_code-eq-zero_iff (exit_error (some status) (pos n)) = (λ h. ground arith, λ h. ground arith)
exit_code-eq-zero_iff (exit_error (some status) (negsuc n)) = (λ h. ground arith, λ h. ground arith)

-- How a child ends: it exits with a status, a signal ends it, or Wait fails to tell.
pub data Ending : Type 0 where
  exits killed : ℕ → Ending
  unknown : Ending

-- What os/exec's Wait reports of an end on a POSIX system: no error for a child that exits with 0, and the
-- exit code -1 for one that a signal has ended.
abbrev pub Reports : Ending → WaitError → Type 0
Reports (exits zero) e = e ≡ no_error
Reports (exits (suc n)) e =
    (signal : ℕ) × (e
      ≡ exit_error (some (record { signaled = false; signal = signal })) (pos (suc n)))
Reports (killed g) e = e ≡ exit_error (some (record { signaled = true; signal = g })) (negsuc 0)
Reports unknown e = e ≡ other_error

-- The status of an ending in a shell: the child's own, or 128 and the signal.
abbrev pub shell_status : Ending → ℕ
shell_status (exits n) = n
shell_status (killed g) = 128 + g
shell_status unknown = 1

pub exit_code-eq-shell_status :
    (x : Ending) (e : WaitError) → Reports x e → exit_code e ≡ shell_status x
unfolding exit_code
exit_code-eq-shell_status (exits zero) e h = rw h refl
exit_code-eq-shell_status (exits (suc n)) e (signal, h) = rw h refl
exit_code-eq-shell_status (killed g) e h = rw h refl
exit_code-eq-shell_status unknown e h = rw h refl
