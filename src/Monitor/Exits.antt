-- ===== src/Monitor/Exits.antt =====
-- The exit code in a Docker status.
use bastion_hub.Prelude.{
  ℕ, ◌+◌, ◌-◌, ◌*◌, ◌≡◌, refl, ◌∙◌, Bool, true, ◌&&◌, not, some, [], ◌∷◌, ◌++◌, arith, Text, codes,
  has_prefix, drop, text_eq, All, ◌==◌,
}
use bastion_hub.Monitor.{
  is_digit, read_number, read_digits, read_code, exit_code, clean_exit, Container, is_bad,
  bad_state,
}

-- The number that digits spell behind `n`.
abbrev number : ℕ → Text → ℕ
number n [] = n
number n (c ∷ s) = number (n * 10 + (c - b'0')) s

abbrev pub Digits : Text → Type 0
Digits s = All (λ c. is_digit c ≡ true) s

abbrev pub all_zero : Text → Bool
all_zero [] = true
all_zero (c ∷ s) = (c == b'0') && all_zero s

read_number-Digits :
    (n : ℕ) (ds rest : Text) → Digits ds → read_number n (ds ++ b')' ∷ rest) ≡ some (number n ds)
unfolding read_number
read_number-Digits n [] rest h = refl
read_number-Digits n (d ∷ ds) rest h =
    ground (arith, read_number-Digits (n * 10 + (d - b'0')) ds rest h.1)

number-zero : (n : ℕ) (ds : Text) → Digits ds → (number n ds == 0) ≡ (n == 0 && all_zero ds)
number-zero n [] h = ground arith
number-zero n (d ∷ ds) h = ground (arith, number-zero (n * 10 + (d - b'0')) ds h.1)

read_code-Digits :
    (d : ℕ) (ds rest : Text)
    → Digits (d ∷ ds)
    → read_code (d ∷ ds ++ b')' ∷ rest) ≡ some (number (d - b'0') ds)
unfolding read_code read_digits
read_code-Digits d ds rest h = ground (arith, read_number-Digits (d - b'0') ds rest h.1)

exit_code_here :
    (c : ℕ) (s : Text) (n : ℕ)
    → has_prefix (c ∷ s) (codes "Exited (") ≡ true
    → read_code (drop 8 (c ∷ s)) ≡ some n
    → exit_code (c ∷ s) ≡ some n
unfolding exit_code
exit_code_here c s n p r = ground (arith, p, r)

clean_exit-some : (s : Text) (n : ℕ) → exit_code s ≡ some n → clean_exit s ≡ (n == 0)
unfolding clean_exit
clean_exit-some s n e = rw (e, clean_exit) refl

-- A status that shows an exit code is a clean exit exactly when the code is zero.
clean_exit_zero :
    (d : ℕ) (ds rest : Text)
    → Digits (d ∷ ds)
    → clean_exit (codes "Exited (" ++ d ∷ ds ++ b')' ∷ rest) ≡ all_zero (d ∷ ds)
clean_exit_zero d ds rest h =
    clean_exit-some (codes "Exited (" ++ d ∷ ds ++ b')' ∷ rest) (number (d - b'0') ds) (
      exit_code_here b'E' (codes "xited (" ++ d ∷ ds ++ b')' ∷ rest) (number (d - b'0') ds)
        (unfold has_prefix in refl) (read_code-Digits d ds rest h))
    ∙ number-zero (d - b'0') ds h.1
    ∙ ground (arith, h.0)

-- An exited container whose status shows an exit code is bad exactly when the code is not zero.
exited_is_bad :
    (c : Container) (d : ℕ) (ds rest : Text)
    → Digits (d ∷ ds)
    → c.state ≡ codes "exited"
    → c.status ≡ codes "Exited (" ++ d ∷ ds ++ b')' ∷ rest
    → is_bad c ≡ not (all_zero (d ∷ ds))
unfolding is_bad bad_state text_eq
exited_is_bad c d ds rest h state status =
    rw (state, status) (rw (clean_exit_zero d ds rest h) refl)
