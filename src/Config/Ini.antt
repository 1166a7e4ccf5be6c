-- ===== src/Config/Ini.antt =====
-- `ConfigParser` of llarp/config/ini.cpp. Texts are lists of bytes. The containers of the source have no
-- order: a multimap tells how often a pair is in it, and what an iteration visits, in some order, is an
-- argument of what iterates. A file is its contents.
pub mod Lines
pub mod Saved
pub mod RoundTrip
use mathlib.Core.Option
use mathlib.Core.Option.{Option, none, some}
use lokinet.Base.Bytes.{Bytes}
use lokinet.Base.{
  ℕ, Bool, true, false, ◌&&◌, ◌||◌, List, [], ◌∷◌, ◌++◌, ◌==◌, leb, if◌then◌else◌, bytes_eq, ◌+◌,
}

-- A section's keys and values: how often it has each pair.
abbrev pub SectionValues : Type 0
SectionValues = Bytes × Bytes → ℕ

abbrev pub ConfigImpl : Type 0
ConfigImpl = Bytes → Option SectionValues

pub record ConfigParser : Type 0 where
  pub text : Bytes
  pub config : ConfigImpl
  pub overrides : Bytes → Option ConfigImpl

abbrev pub no_config : ConfigImpl
no_config name = none

unfoldable pub clear : ConfigParser → ConfigParser
clear s = record { text = []; config = no_config; overrides = λ path. none }

-- `isspace`
abbrev pub whitespace : ℕ → Bool
whitespace c = (c == 32) || (leb 9 c && leb c 13)

abbrev pub is_eol : ℕ → Bool
is_eol c = (c == 10) || (c == 13)

-- The loops that split the text into lines. A line goes on with its first byte, or that is all of it.
abbrev pub begin_line : ℕ → List Bytes → List Bytes
begin_line c [] = (c ∷ []) ∷ []
begin_line c (l ∷ ls) = (c ∷ l) ∷ ls

unfoldable pub split_lines : Bytes → List Bytes
split_lines [] = []
split_lines (c ∷ cs) =
    let rest = split_lines cs in if is_eol c then [] ∷ rest else begin_line c rest

-- the loops of `remove_prefix` and of `remove_suffix`
unfoldable pub trim_front : Bytes → Bytes
trim_front [] = []
trim_front (c ∷ cs) = let rest = trim_front cs in if whitespace c then rest else c ∷ cs

abbrev pub keep_byte : ℕ → Bytes → Bytes
keep_byte c [] = if whitespace c then [] else c ∷ []
keep_byte c (d ∷ ds) = c ∷ d ∷ ds

unfoldable pub trim_back : Bytes → Bytes
trim_back [] = []
trim_back (c ∷ cs) = keep_byte c (trim_back cs)

-- `find('=')`, with what is before and behind it
unfoldable pub split_pair : Bytes → Option (Bytes × Bytes)
split_pair [] = none
split_pair (c ∷ cs) =
    if c == b'=' then some ([], cs) else Option.map (λ x. (c ∷ x.0, x.1)) (split_pair cs)

-- The name in a section's header: what is between `[` and the `]` at the end.
unfoldable pub before_bracket : Bytes → Option Bytes
before_bracket [] = none
before_bracket (c ∷ []) = if c == b']' then some [] else none
before_bracket (c ∷ d ∷ ds) = Option.map (λ x. c ∷ x) (before_bracket (d ∷ ds))

abbrev pub section_name : Bytes → Option Bytes
section_name [] = none
section_name (c ∷ cs) = if c == b'[' then before_bracket cs else none

abbrev pub is_ignored : Bytes → Bool
is_ignored [] = true
is_ignored (c ∷ cs) = (c == b';') || (c == b'#')

abbrev pub values_of : Option SectionValues → SectionValues
values_of none = λ p. 0
values_of (some vs) = vs

abbrev pub same_pair : Bytes × Bytes → Bytes × Bytes → Bool
same_pair (k, v) (k', v') = bytes_eq.beq k k' && bytes_eq.beq v v'

-- `emplace(k, v)`, which adds a pair that is there once more
abbrev pub emplace : Bytes × Bytes → SectionValues → SectionValues
emplace x vs = λ p. (if same_pair x p then 1 else 0) + vs p

-- `m_Config[section].emplace(k, v)`
unfoldable pub add_value : Bytes → Bytes → Bytes → ConfigImpl → ConfigImpl
add_value section k v m = λ name.
    if bytes_eq.beq section name then some (emplace (k, v) (values_of (m section))) else m name

-- the name of the section that the loop is in, and `m_Config`
abbrev pub Parsed : Type 0
Parsed = Bytes × ConfigImpl

-- a pair is added to the section; without one, and without a key, the line is bad
abbrev pub add_pair : Parsed → Option (Bytes × Bytes) → Parsed × Bool
add_pair x none = (x, false)
add_pair x (some ([], v)) = (x, false)
add_pair x (some (c ∷ k, v)) = ((x.0, add_value x.0 (c ∷ k) v x.1), true)

abbrev pub trim_pair : Bytes × Bytes → Bytes × Bytes
trim_pair (k, v) = (trim_back k, trim_front v)

abbrev pub enter : Parsed → Option Bytes → Parsed × Bool → Parsed × Bool
enter x none other = other
enter x (some name) other = ((name, x.1), true)

-- The body of the loop over the lines, for a line that was trimmed; the flag is false where the loop
-- ends with an error.
unfoldable pub parse_line : Bytes → Parsed → Parsed × Bool
parse_line line x =
    if is_ignored line
    then (x, true)
    else enter x (section_name line) (add_pair x (Option.map trim_pair (split_pair line)))

abbrev pub and_lines : Parsed × Bool → (Parsed → Parsed × Bool) → Parsed × Bool
and_lines (x, false) more = (x, false)
and_lines (x, true) more = more x

unfoldable pub parse_lines : List Bytes → Parsed → Parsed × Bool
parse_lines [] x = (x, true)
parse_lines (l ∷ ls) x = and_lines (parse_line (trim_back (trim_front l)) x) (parse_lines ls)

-- `Parse`: what was read before a bad line stays
unfoldable pub parse : ConfigParser → ConfigParser × Bool
parse s =
    let r = parse_lines (split_lines s.text) ([], s.config) in (record s { config = r.0.1 }, r.1)

-- `LoadFromStr`, and `LoadFile` with the contents of a file that can be opened and is not empty
unfoldable pub load_from_str : Bytes → ConfigParser → ConfigParser × Bool
load_from_str text s = parse (record s { text = text })

-- `VisitSection`: what the visitor is given
unfoldable pub visit_section : Bytes → ConfigParser → Option SectionValues
visit_section name s = s.config name

abbrev pub config_of : Option ConfigImpl → ConfigImpl
config_of none = no_config
config_of (some m) = m

-- `AddOverride`
unfoldable pub add_override : Bytes → Bytes → Bytes → Bytes → ConfigParser → ConfigParser
unfolding add_value
add_override path section k v s = record s {
  overrides = λ other.
      if bytes_eq.beq path other
      then some (add_value section k v (config_of (s.overrides path)))
      else s.overrides other;
}

-- The sections of one file, with their pairs, in the order in which an iteration visits them.
abbrev pub Listing : Type 0
Listing = List (Bytes × List (Bytes × Bytes))

-- What `Save` writes into one file.
unfoldable pub values_text : List (Bytes × Bytes) → Bytes
values_text [] = []
values_text ((k, v) ∷ vs) = (k ++ b'=' ∷ v) ++ 10 ∷ values_text vs

unfoldable pub config_text : Listing → Bytes
config_text [] = []
config_text ((section, vs) ∷ l) =
    10 ∷ ((b'[' ∷ (section ++ b']' ∷ [])) ++ 10 ∷ (values_text vs ++ config_text l))

abbrev pub files : List (Bytes × Listing) → List (Bytes × Bytes)
files [] = []
files ((path, l) ∷ rest) = (path, config_text l) ∷ files rest

-- `Save`, where the iteration over the overrides visits this: the files with their contents, and the
-- parser after it.
unfoldable pub save : List (Bytes × Listing) → ConfigParser → List (Bytes × Bytes) × ConfigParser
save order s = (files order, record s { overrides = λ path. none })
