-- ===== src/Scheduler/Versions.antt =====
-- master/internal/scheduler/scheduler.go: schedulerAgentVersionAtLeast and the other small tests of the
-- container updates.
pub mod Unique
mod Tests
use bastion_hub.Prelude.{
  ℕ, suc, ◌+◌, ◌-◌, ◌*◌, ◌^◌, ◌≡◌, Bool, true, false, ◌&&◌, ◌||◌, not, Option, none, some, List, [],
  ◌∷◌, Text, codes, text_eq, trim_space, trim_prefix, to_lower, contains, cut, leb, ltb, ◌==◌,
  if◌then◌else◌,
}
use bastion_hub.Scheduler.Reconcile.{holds}

abbrev pub is_digit : ℕ → Bool
is_digit c = leb b'0' c && leb c b'9'

-- The digits at the front of a text, behind the number `n`, and what follows them.
unfoldable pub read_more : ℕ → Text → ℕ × Text
read_more n [] = (n, [])
read_more n (c ∷ s) =
    let more = read_more (n * 10 + (c - b'0')) s in if is_digit c then more else (n, c ∷ s)

abbrev pub is_blank : ℕ → Bool
is_blank c = (c == 32) || (c == 9)

-- `%d` of Sscanf, on a text without signs: blanks are skipped, and a number of 2^63 or more is an error.
unfoldable pub scan_int : Text → Option (ℕ × Text)
unfolding read_more
scan_int [] = none
scan_int (c ∷ s) =
    let later = scan_int s in
    let (n, rest) = read_more (c - b'0') s in
    if is_blank c
    then later
    else if is_digit c
    then (if ltb n (2 ^ 63) then some (n, rest) else none)
    else none

-- a '.' of the format
unfoldable pub scan_dot : Text → Option Text
scan_dot [] = none
scan_dot (c ∷ s) = if c == b'.' then some s else none

-- `%d.%d`, with what follows
unfoldable pub scan_two : Text → Option (ℕ × ℕ × Text)
unfolding scan_int scan_dot
scan_two s = elim (scan_int s) [
  | none ↦ none
  | some (major, s1) ↦ elim (scan_dot s1) [
    | none ↦ none
    | some s2 ↦ elim (scan_int s2) [ none ↦ none | some (minor, s3) ↦ some (major, minor, s3) ]
  ]
]

-- the third number, which is 0 where the longer format fails
unfoldable pub scan_patch : Text → ℕ
unfolding scan_int scan_dot
scan_patch s = elim (scan_dot s) [
  | none ↦ 0
  | some s1 ↦ elim (scan_int s1) [ none ↦ 0 | some (patch, rest) ↦ patch ]
]

-- strings.SplitN(s, b, 2)[0]
unfoldable pub before : ℕ → Text → Text
before b s = elim (cut b s) [ none ↦ s | some (x, y) ↦ x ]

unfoldable pub scheduler_agent_version_at_least : Text → ℕ → ℕ → ℕ → Bool
unfolding scan_two scan_patch before
scheduler_agent_version_at_least version major minor patch =
    let core = before b'+' (before b'-' (trim_prefix (trim_space version) (codes "v"))) in
    elim (scan_two core) [
      | none ↦ false
      | some (got_major, got_minor, rest) ↦
          if not (got_major == major)
          then ltb major got_major
          else if not (got_minor == minor)
          then ltb minor got_minor
          else leb patch (scan_patch rest)
    ]

unfoldable pub is_missing_docker_socket_scan_error : Text → Bool
is_missing_docker_socket_scan_error message =
    contains (to_lower (trim_space message)) (codes "/var/run/docker.sock")
    && contains (to_lower (trim_space message)) (codes "no such file or directory")

-- The loop of uniqueStrings; `seen` holds the values so far.
pub unique_from : List Text → List Text → List Text
unique_from seen [] = []
unique_from seen (value ∷ values) =
    let rest = unique_from seen values in
    let more = value ∷ unique_from (value ∷ seen) values in
    if text_eq value [] then rest else if holds value seen then rest else more

pub unique_strings : List Text → List Text
unfolding unique_from
unique_strings values = unique_from [] values
