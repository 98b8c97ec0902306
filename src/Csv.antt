-- ===== src/Csv.antt =====
-- import/csv.rs: the reader of CSV exports and the mapping of their columns. A text is the list of
-- its characters' numbers.
mod Trimming
pub mod Quoting
use gabbro.Prelude.{
  Bool, List, Option, Result, [], codes, err, false, get_or, if◌then◌else◌, leb, ltb, map, none,
  not, ok, some, take, ℕ, ◌&&◌, ◌*◌, ◌++◌, ◌+◌, ◌==◌, ◌||◌, ◌∷◌,
}
use gabbro.Bytes.{bytes_eq}
use gabbro.Entry.Card.{is_blank, is_whitespace}

abbrev pub Text : Type 0
Text = List ℕ

abbrev pub quote : ℕ
quote = 34

abbrev pub comma : ℕ
comma = 44

-- `eq_ignore_ascii_case`
abbrev pub ascii_lower : ℕ → ℕ
ascii_lower c = if leb 65 c && leb c 90 then c + 32 else c

unfoldable pub normalise_field : Text → Text
unfolding bytes_eq
normalise_field value = if bytes_eq (map ascii_lower value) (codes "none") then [] else value

unfoldable pub trim_start : Text → Text
unfolding is_whitespace
trim_start [] = []
trim_start (c ∷ cs) = let rest = trim_start cs in if is_whitespace c then rest else c ∷ cs

unfoldable pub trim_end : Text → Text
unfolding is_blank
trim_end [] = []
trim_end (c ∷ cs) = let rest = trim_end cs in if is_blank (c ∷ cs) then [] else c ∷ rest

-- `normalise_field(current.trim())`
unfoldable pub field_of : Text → Text
unfolding normalise_field trim_start trim_end
field_of current = normalise_field (trim_end (trim_start current))

-- The variables of the loop.
pub record CsvScan : Type 0 where
  pub fields : List Text
  pub current : Text
  pub in_quotes : Bool

unfoldable pub scan_char : ℕ → CsvScan → CsvScan
unfolding field_of
scan_char c s =
    if c == quote
    then record s { in_quotes = not s.in_quotes }
    else if c == comma && not s.in_quotes
    then record s { fields = s.fields ++ field_of s.current ∷ []; current = [] }
    else record s { current = s.current ++ c ∷ [] }

abbrev pub scan_line : Text → CsvScan → CsvScan
unfolding scan_char
scan_line [] s = s
scan_line (c ∷ cs) s = scan_line cs (scan_char c s)

unfoldable pub finish_line : CsvScan → List Text
unfolding field_of
finish_line s = s.fields ++ field_of s.current ∷ []

unfoldable pub parse_csv_line : Text → List Text
unfolding scan_char finish_line
parse_csv_line line =
    finish_line (scan_line line (record { fields = []; current = []; in_quotes = false }))

-- `str::lines`: a line ends at "\n", and a "\r" in front of that is dropped.
unfoldable pub without_cr : Text → Text
without_cr [] = []
without_cr (c ∷ []) = if c == 13 then [] else c ∷ []
without_cr (c ∷ d ∷ cs) = c ∷ without_cr (d ∷ cs)

unfoldable pub split_char : ℕ → List Text × Text → List Text × Text
unfolding without_cr
split_char c (lines, current) =
    if c == 10 then (lines ++ without_cr current ∷ [], []) else (lines, current ++ c ∷ [])

abbrev pub split_text : Text → List Text × Text → List Text × Text
unfolding split_char
split_text [] s = s
split_text (c ∷ cs) s = split_text cs (split_char c s)

abbrev pub last_line : List Text × Text → List Text
last_line (lines, []) = lines
last_line (lines, c ∷ cs) = lines ++ (c ∷ cs) ∷ []

unfoldable pub lines_of : Text → List Text
unfolding split_char
lines_of text = last_line (split_text text ([], []))

-- `strip_prefix('\u{FEFF}').unwrap_or(input)`
unfoldable pub without_bom : Text → Text
without_bom [] = []
without_bom (c ∷ cs) = if c == 0xfeff then cs else c ∷ cs

-- `str::len`, in bytes
abbrev pub len_utf8 : ℕ → ℕ
len_utf8 c = if ltb c 0x80 then 1 else if ltb c 0x800 then 2 else if ltb c 0x10000 then 3 else 4

unfoldable pub text_len : Text → ℕ
text_len [] = 0
text_len (c ∷ cs) = len_utf8 c + text_len cs

pub data CsvError : Type 0 where
  over_limit empty_input no_headers : CsvError

pub record CsvPreview : Type 0 where
  pub headers : List Text
  pub rows : List (List Text)

pub record CsvImportConfig : Type 0 where
  pub title_col : Option Text
  pub url_col : Option Text
  pub username_col : Option Text
  pub password_col : Option Text
  pub notes_col : Option Text

pub record CsvEntry : Type 0 where
  pub title : Text
  pub url : Text
  pub username : Text
  pub password : Text
  pub notes : Option Text
  pub custom_fields : List (Text × Text)

unfoldable pub sniff_lines : List Text → Result CsvError CsvPreview
unfolding parse_csv_line
sniff_lines [] = err empty_input
sniff_lines (header ∷ lines) = elim (parse_csv_line header) [
  | [] ↦ err no_headers
  | h ∷ hs ↦ ok (record { headers = h ∷ hs; rows = map parse_csv_line (take 3 lines) })
]

unfoldable pub sniff_csv : Text → Result CsvError CsvPreview
unfolding without_bom lines_of sniff_lines
sniff_csv input = sniff_lines (lines_of (without_bom input))

-- `headers.iter().position(|h| h == name)`
unfoldable pub position_from : ℕ → Text → List Text → Option ℕ
unfolding bytes_eq
position_from i name [] = none
position_from i name (h ∷ hs) =
    let rest = position_from (i + 1) name hs in if bytes_eq h name then some i else rest

unfoldable pub column : List Text → Option Text → Option ℕ
unfolding position_from
column headers none = none
column headers (some name) = position_from 0 name headers

-- The closure `get`
unfoldable pub cell : List Text → Option ℕ → Text
cell fields none = []
cell fields (some i) = get_or fields i []

abbrev pub claims : Option ℕ → ℕ → Bool
claims none i = false
claims (some j) i = j == i

-- The columns that the configuration names.
pub record CsvColumns : Type 0 where
  pub title : Option ℕ
  pub url : Option ℕ
  pub username : Option ℕ
  pub password : Option ℕ
  pub notes : Option ℕ

unfoldable pub columns_of : CsvImportConfig → List Text → CsvColumns
unfolding column
columns_of config headers = record {
  title = column headers config.title_col;
  url = column headers config.url_col;
  username = column headers config.username_col;
  password = column headers config.password_col;
  notes = column headers config.notes_col;
}

abbrev pub is_claimed : CsvColumns → ℕ → Bool
is_claimed cols i =
    claims cols.title i
    || claims cols.url i
    || claims cols.username i
    || claims cols.password i
    || claims cols.notes i

unfoldable pub unclaimed : CsvColumns → List Text → ℕ → List Text → List (Text × Text)
unclaimed cols fields i [] = []
unclaimed cols fields i (h ∷ hs) =
    let rest = unclaimed cols fields (i + 1) hs in
    if is_claimed cols i then rest else (h, get_or fields i []) ∷ rest

abbrev pub title_or : Text → Text → Text
title_or [] [] = codes "MISSING TITLE"
title_or [] (c ∷ url) = c ∷ url
title_or (c ∷ title) url = c ∷ title

abbrev pub none_if_empty : Text → Option Text
none_if_empty [] = none
none_if_empty (c ∷ cs) = some (c ∷ cs)

unfoldable pub entry_of : CsvColumns → List Text → List Text → CsvEntry
unfolding cell unclaimed
entry_of cols headers fields = record {
  title = title_or (cell fields cols.title) (cell fields cols.url);
  url = cell fields cols.url;
  username = cell fields cols.username;
  password = cell fields cols.password;
  notes = none_if_empty (cell fields cols.notes);
  custom_fields = unclaimed cols fields 0 headers;
}

unfoldable pub entries_of : CsvColumns → List Text → List Text → List CsvEntry
unfolding is_blank parse_csv_line entry_of
entries_of cols headers [] = []
entries_of cols headers (l ∷ ls) =
    let rest = entries_of cols headers ls in
    if is_blank l then rest else entry_of cols headers (parse_csv_line l) ∷ rest

unfoldable pub import_lines : CsvImportConfig → List Text → Result CsvError (List CsvEntry)
unfolding parse_csv_line columns_of entries_of
import_lines config [] = err empty_input
import_lines config (header ∷ lines) = elim (parse_csv_line header) [
  | [] ↦ err no_headers
  | h ∷ hs ↦ ok (entries_of (columns_of config (h ∷ hs)) (h ∷ hs) lines)
]

abbrev pub text_import_max_bytes : ℕ
text_import_max_bytes = 25 * 1024 * 1024

unfoldable pub import_csv : Text → CsvImportConfig → Result CsvError (List CsvEntry)
unfolding text_len without_bom lines_of import_lines
import_csv input config =
    if ltb text_import_max_bytes (text_len input)
    then err over_limit
    else import_lines config (lines_of (without_bom input))
