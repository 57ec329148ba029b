-- ===== src/Client/Subscribe.antt =====
-- example/sigfs_subscribe.cc, main: the options, the loop over read(2), and the lines that it
-- prints. The options are those that getopt_long returns, in order; the results of open(2) and
-- read(2) are arguments.
pub mod Prints
use sigfs.Base.{
  ℕ, zero, suc, ◌+◌, Bool, true, false, List, [], ◌∷◌, ◌++◌, Option, none, some, ltb, if◌then◌else◌,
  length, take, drop,
}
use sigfs.Base.Int.{ℤ, pos, negsuc}
use sigfs.Common.{sizeof_signal, sigfs_signal_size}
use sigfs.Wire.{SignalHeader}
use sigfs.Client.{header_at}
use sigfs.Client.Escape.{
  End, returned, exited, overrun, overread, c_string, escape_string, hex_string,
}

-- An option with its argument; that of --count may be missing.
pub data Opt : Type 0 where
  file_opt : List ℕ → Opt
  count_opt : Option ℤ → Opt
  hex_opt other_opt : Opt

pub record Settings : Type 0 where
  pub file : List ℕ
  pub hex : Bool
  pub count : ℤ

abbrev pub defaults : Settings
defaults = record { file = []; hex = false; count = pos 0 }

-- The options lead to the settings, to the usage and exit(255), or to atoi(NULL).
pub data Choice : Type 0 where
  chosen : Settings → Choice
  usage crashed : Choice

unfoldable pub read_options : List Opt → Settings → Choice
read_options [] s = chosen s
read_options (file_opt name ∷ os) s = read_options os (record s { file = name })
read_options (count_opt (some n) ∷ os) s = read_options os (record s { count = n })
read_options (count_opt none ∷ os) s = crashed
read_options (hex_opt ∷ os) s = read_options os (record s { hex = true })
read_options (other_opt ∷ os) s = usage

-- A line of output: id, signals lost and size from the header, and the data as text.
abbrev pub Line : Type 0
Line = SignalHeader × List ℕ

-- How the loop over one reply ends, with the lines that it printed: with esc_buf as it leaves it,
-- or before, by exit(1), by an access outside esc_buf or the data, or at a record that is not wholly
-- among the bytes that were read, where the code goes on with what the buffer held before.
pub data Printing : Type 0 where
  printed_all : List Line → List ℕ → Printing
  stopped : List Line → Printing

unfoldable pub with_line : Line → Printing → Printing
with_line l (printed_all ls esc) = printed_all (l ∷ ls) esc
with_line l (stopped ls) = stopped (l ∷ ls)

-- The line's text, with esc_buf afterwards.
unfoldable pub show_text : End → Option (List ℕ × List ℕ)
unfolding c_string
show_text (returned esc) = elim (c_string esc) [ none ↦ none | some text ↦ some (text, esc) ]
show_text exited = none
show_text overrun = none
show_text overread = none

-- The payload in the one form or the other.
unfoldable pub payload_text : Bool → List ℕ → ℕ → List ℕ → End
unfolding escape_string hex_string
payload_text hex esc size behind_header =
    if hex then hex_string esc behind_header size else escape_string esc (take size behind_header)

-- The loop `while(read_res)`, with the number of its rounds as fuel.
unfoldable pub print_records : ℕ → Bool → List ℕ → List ℕ → Printing
unfolding with_line
print_records fuel hex esc [] = printed_all [] esc
print_records zero hex esc (b ∷ bs) = stopped []
print_records (suc fuel) hex esc (b ∷ bs) =
    let buf : List ℕ = b ∷ bs in
    let size = (header_at buf).payload_size in
    if ltb (length buf) sizeof_signal
    then stopped []
    else if ltb (length buf) (sigfs_signal_size size)
    then stopped []
    else elim (show_text (payload_text hex esc size (drop sizeof_signal buf))) [
      | none ↦ stopped []
      | some (text, esc') ↦
          with_line (header_at buf, text)
            (print_records fuel hex esc' (drop (sigfs_signal_size size) buf))
    ]

-- How the program ends: exit(0), exit(255), within a reply, or still in a read.
pub data Outcome : Type 0 where
  finished failed broken waiting : Outcome

-- `!count || ind < count`
unfoldable pub goes_on : ℤ → ℕ → Bool
goes_on (pos zero) ind = true
goes_on (pos (suc n)) ind = ltb ind (suc n)
goes_on (negsuc n) ind = false

-- The loop over the results of read(2), of which `none` is -1.
unfoldable pub read_loop : Settings → ℕ → List ℕ → List (Option (List ℕ)) → List Line × Outcome
unfolding goes_on
read_loop s ind esc [] = if goes_on s.count ind then ([], waiting) else ([], finished)
read_loop s ind esc (none ∷ rs) = if goes_on s.count ind then ([], failed) else ([], finished)
read_loop s ind esc (some bytes ∷ rs) =
    let round : List Line × Outcome = elim (print_records (length bytes) s.hex esc bytes) [
      | stopped lines ↦ (lines, broken)
      | printed_all lines esc' ↦
          let (more, end) = read_loop s (ind + 1) esc' rs in (lines ++ more, end)
    ] in
    if goes_on s.count ind then round else ([], finished)

-- main: `can_open` is whether open(2) succeeds, and `esc` what esc_buf holds at first.
unfoldable pub main : List Opt → Bool → List ℕ → List (Option (List ℕ)) → List Line × Outcome
unfolding read_options read_loop
main opts can_open esc reads = elim (read_options opts defaults) [
  | crashed ↦ ([], broken)
  | usage ↦ ([], failed)
  | chosen s ↦ elim s.file [
    | [] ↦ ([], failed)
    | c ∷ cs ↦ if can_open then read_loop s 0 esc reads else ([], failed)
  ]
]
