-- ===== src/Client/Publish.antt =====
-- example/sigfs_publish.cc, main: the options, and the loop over write(2). The options are those that
-- getopt_long returns, in order; sprintf with the user's format, and the results of open(2) and
-- write(2), are arguments. The pauses are left out.
pub mod Writes
use sigfs.Base.{
  ℕ, zero, suc, ◌+◌, Bool, true, false, List, [], ◌∷◌, Option, none, some, ltb, if◌then◌else◌,
  length, leb,
}
use sigfs.Base.Int.{ℤ, pos, negsuc}
use sigfs.Client.{publish_buffer}

pub data Opt : Type 0 where
  data_opt : List ℕ → Opt
  file_opt : List ℕ → Opt
  count_opt sleep_opt : Option ℤ → Opt
  other_opt : Opt

pub record Settings : Type 0 where
  pub fmt_string : List ℕ
  pub file : List ℕ
  pub count : ℤ

abbrev pub defaults : Settings
defaults = record { fmt_string = []; file = []; count = pos 1 }

-- The options lead to the settings, to the usage and exit(255), or to a write past fmt_string or
-- atoi(NULL).
pub data Choice : Type 0 where
  chosen : Settings → Choice
  usage crashed : Choice

-- The format has a final zero in fmt_string.
abbrev pub max_format : ℕ
max_format = 2048

unfoldable pub read_options : List Opt → Settings → Choice
read_options [] s = chosen s
read_options (data_opt fmt ∷ os) s =
    let rest = read_options os (record s { fmt_string = fmt }) in
    if ltb (length fmt) max_format then rest else crashed
read_options (file_opt name ∷ os) s = read_options os (record s { file = name })
read_options (count_opt (some n) ∷ os) s = read_options os (record s { count = n })
read_options (count_opt none ∷ os) s = crashed
read_options (sleep_opt (some n) ∷ os) s = read_options os s
read_options (sleep_opt none ∷ os) s = crashed
read_options (other_opt ∷ os) s = usage

-- How the program ends: exit(0), exit(255), by an overrun or atoi(NULL), or still in a write.
pub data Outcome : Type 0 where
  finished failed overrun waiting : Outcome

-- `ind < count`
unfoldable pub goes_on : ℤ → ℕ → Bool
goes_on (pos n) ind = ltb ind n
goes_on (negsuc n) ind = false

-- One round before its write: the buffer, if the text with its zero fits the part for the payload.
unfoldable pub next_buffer : (List ℕ → ℕ → List ℕ) → List ℕ → ℕ → Option (List ℕ)
unfolding publish_buffer
next_buffer sprintf fmt ind =
    if ltb (length (sprintf fmt (ind + 1))) (length fmt + 100)
    then some (publish_buffer (sprintf fmt (ind + 1)))
    else none

unfoldable pub with_write : List ℕ → List (List ℕ) × Outcome → List (List ℕ) × Outcome
with_write buf (writes, end) = (buf ∷ writes, end)

-- The loop over the results of write(2), of which false is -1: the buffers that it writes.
unfoldable pub write_loop :
    (List ℕ → ℕ → List ℕ) → Settings → ℕ → List Bool → List (List ℕ) × Outcome
unfolding goes_on with_write
write_loop sprintf s ind [] =
    if goes_on s.count ind
    then elim (next_buffer sprintf s.fmt_string ind) [
      | none ↦ ([], overrun)
      | some buf ↦ (buf ∷ [], waiting)
    ]
    else ([], finished)
write_loop sprintf s ind (ok ∷ oks) =
    let rest = write_loop sprintf s (ind + 1) oks in
    if goes_on s.count ind
    then elim (next_buffer sprintf s.fmt_string ind) [
      | none ↦ ([], overrun)
      | some buf ↦ if ok then with_write buf rest else (buf ∷ [], failed)
    ]
    else ([], finished)

-- main: `can_open` is whether open(2) succeeds.
unfoldable pub main : (List ℕ → ℕ → List ℕ) → List Opt → Bool → List Bool → List (List ℕ) × Outcome
unfolding read_options write_loop
main sprintf opts can_open oks = elim (read_options opts defaults) [
  | crashed ↦ ([], overrun)
  | usage ↦ ([], failed)
  | chosen s ↦ elim s.fmt_string [
    | [] ↦ ([], failed)
    | c ∷ cs ↦ elim s.file [
      | [] ↦ ([], failed)
      | d ∷ ds ↦ if can_open then write_loop sprintf s 0 oks else ([], failed)
    ]
  ]
]
