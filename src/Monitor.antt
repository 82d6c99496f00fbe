-- ===== src/Monitor.antt =====
-- master/internal/monitor/monitor.go: the scan of the container inventory for containers in a bad state.
pub mod Announce
pub mod Exits
mod Tests
use bastion_hub.Prelude.{
  ℕ, suc, ◌+◌, ◌-◌, ◌*◌, ◌≡◌, Bool, true, false, ◌&&◌, ◌||◌, not, Option, none, some, List, [], ◌∷◌,
  ◌++◌, map, Text, codes, text_eq, has_prefix, drop, length, lookup, insert, leb, ltb, ◌==◌,
  if◌then◌else◌,
}

-- a row of the inventory: the fields of store.Container that scan reads
pub record Container : Type 0 where
  pub node_id : Text
  pub container_id : Text
  pub name : Text
  pub display_name : Text
  pub state : Text
  pub status : Text

pub record BadEntry : Type 0 where
  pub node : Text
  pub name : Text
  pub state : Text
  pub status : Text

-- badStates
pub bad_state : Text → Bool
bad_state s =
    text_eq s (codes "exited") || text_eq s (codes "dead") || text_eq s (codes "restarting")

abbrev pub is_digit : ℕ → Bool
is_digit c = leb b'0' c && leb c b'9'

-- `\d+\)` behind at least one digit, with the number read so far: the number, if the text goes on so.
pub read_number : ℕ → Text → Option ℕ
read_number n [] = none
read_number n (c ∷ s) =
    let more = read_number (n * 10 + (c - b'0')) s in
    if c == b')' then some n else if is_digit c then more else none

pub read_digits : Text → Option ℕ
unfolding read_number
read_digits [] = none
read_digits (c ∷ s) = if is_digit c then read_number (c - b'0') s else none

-- `[+-]?\d+\)`
pub read_code : Text → Option ℕ
unfolding read_digits
read_code [] = none
read_code (c ∷ s) = if c == b'+' || c == b'-' then read_digits s else read_digits (c ∷ s)

-- The first match of exitCodeRe: the size of its exit code.
pub exit_code : Text → Option ℕ
unfolding read_code
exit_code [] = none
exit_code (c ∷ s) =
    let here =
      (if has_prefix (c ∷ s) (codes "Exited (") then read_code (drop 8 (c ∷ s)) else none) in
    let later = exit_code s in elim here [ none ↦ later | some n ↦ some n ]

-- cleanExit: strconv.Atoi gives 0 exactly when all digits are zeros.
pub clean_exit : Text → Bool
unfolding exit_code
clean_exit status = elim (exit_code status) [ none ↦ false | some n ↦ n == 0 ]

-- The conditions under which scan passes a container over.
pub is_bad : Container → Bool
unfolding bad_state clean_exit
is_bad c = bad_state c.state && not (text_eq c.state (codes "exited") && clean_exit c.status)

-- DisplayName, else Name, else ContainerID
pub shown_name : Container → Text
shown_name c =
    if text_eq c.display_name []
    then (if text_eq c.name [] then c.container_id else c.name)
    else c.display_name

pub key : Container → Text
unfolding shown_name
key c = c.node_id ++ b'/' ∷ shown_name c

-- The map `cur` of the currently bad containers.
pub current : (Text → Text) → List Container → List (Text × BadEntry) → List (Text × BadEntry)
unfolding is_bad key
current node_name [] cur = cur
current node_name (c ∷ cons) cur = current node_name cons (
    if is_bad c
    then insert (key c)
        (record {
          node = node_name c.node_id;
          name = shown_name c;
          state = c.state;
          status = c.status;
        })
        cur
    else cur)

abbrev pub keys : List (Text × BadEntry) → List Text
keys cur = map (λ e. e.0) cur

abbrev pub member : Text → List Text → Bool
member k [] = false
member k (j ∷ ks) = text_eq j k || member k ks

-- The entries of `cur` that were not announced in this outage.
pub fresh : List Text → List (Text × BadEntry) → List BadEntry
fresh notified [] = []
fresh notified ((k, e) ∷ cur) =
    if member k notified then fresh notified cur else e ∷ fresh notified cur

-- scan with a readable inventory: the new set of known bad containers, and the entries of the one
-- notification that is sent if there are any.
pub scan : (Text → Text) → List Container → List Text → List Text × List BadEntry
unfolding current fresh
scan node_name cons notified = let cur = current node_name cons [] in (keys cur, fresh notified cur)

pub record Cfg : Type 0 where
  pub enabled : Bool
  pub interval : ℕ

-- loadCfg on what the setting decodes to
pub load_cfg : Cfg → Cfg
load_cfg c = if ltb c.interval 30 then record c { interval = 60 } else c
