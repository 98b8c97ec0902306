-- ===== src/Csv/Quoting.antt =====
-- What the reader makes of a line that is written with quotes (RFC 4180).
use gabbro.Prelude.{
  Bool-cases, List, [], ap, append-nil, if◌then◌else◌, inl, inr, refl, sym, true, ◌++◌, ◌==◌, ◌∷◌,
  ◌≡◌, Bool, append_assoc, false, map, ℕ, ◌∙◌, subst,
}
use gabbro.Csv.Trimming.{IsFieldOf, field_of-IsFieldOf}
use gabbro.Csv.{
  CsvScan, Text, scan_char, scan_line, comma, quote, field_of, finish_line, parse_csv_line,
}

-- A quote in a field is doubled.
abbrev pub escaped : Text → Text
escaped [] = []
escaped (c ∷ cs) = if c == quote then quote ∷ quote ∷ escaped cs else c ∷ escaped cs

abbrev pub quoted : Text → Text
quoted f = quote ∷ (escaped f ++ quote ∷ [])

-- The line of some fields, which are one at least.
abbrev pub row_of : Text → List Text → Text
row_of f [] = quoted f
row_of f (g ∷ gs) = quoted f ++ comma ∷ row_of g gs

abbrev pub without_quotes : Text → Text
without_quotes [] = []
without_quotes (c ∷ cs) = let rest = without_quotes cs in if c == quote then rest else c ∷ rest

abbrev scanning : List Text → Text → Bool → CsvScan
scanning fields current in_quotes = record {
  fields = fields;
  current = current;
  in_quotes = in_quotes;
}

scan_line-append :
    (xs ys : Text) (s : CsvScan) → scan_line (xs ++ ys) s ≡ scan_line ys (scan_line xs s)
unfolding scan_line
scan_line-append [] ys s = refl
scan_line-append (x ∷ xs) ys s = scan_line-append xs ys (scan_char x s)

-- A character that is no quote stands for itself between quotes.
scan_char-plain :
    (c : ℕ) (fields : List Text) (current : Text)
    → (c == quote) ≡ false
    → scan_char c (scanning fields current true) ≡ scanning fields (current ++ c ∷ []) true
unfolding scan_char
scan_char-plain c fields current plain = elim (Bool-cases (c == comma)) [
  | inl here ↦ rw (plain, here) refl
  | inr there ↦ rw (plain, there) refl
]

scan_line-escaped :
    (f current : Text) (fields : List Text)
    → scan_line (escaped f) (scanning fields current true)
      ≡ scanning fields (current ++ without_quotes f) true
unfolding scan_line scan_char
scan_line-escaped [] current fields = ap (λ t. scanning fields t true) (sym (append-nil current))
scan_line-escaped (c ∷ cs) current fields = elim (Bool-cases (c == quote)) [
  | inl here ↦ rw here (scan_line-escaped cs current fields)
  | inr there ↦ rw there (
      ap (scan_line (escaped cs)) (scan_char-plain c fields current there)
      ∙ scan_line-escaped cs (current ++ c ∷ []) fields
      ∙ ap (λ t. scanning fields t true) (append_assoc current (c ∷ []) (without_quotes cs)))
]

scan_line-quoted :
    (f : Text) (fields : List Text)
    → scan_line (quoted f) (scanning fields [] false) ≡ scanning fields (without_quotes f) false
unfolding scan_line scan_char
scan_line-quoted f fields =
    scan_line-append (escaped f) (quote ∷ []) (scanning fields [] true)
    ∙ ap (scan_line (quote ∷ [])) (scan_line-escaped f [] fields)

row_lem :
    (f : Text) (gs fields : List Text)
    → finish_line (scan_line (row_of f gs) (scanning fields [] false))
      ≡ fields ++ map (λ g. field_of (without_quotes g)) (f ∷ gs)
unfolding scan_line scan_char finish_line
row_lem f [] fields = ap finish_line (scan_line-quoted f fields)
row_lem f (g ∷ gs) fields =
    ap finish_line (
      scan_line-append (quoted f) (comma ∷ row_of g gs) (scanning fields [] false)
      ∙ ap (scan_line (comma ∷ row_of g gs)) (scan_line-quoted f fields))
    ∙ row_lem g gs (fields ++ field_of (without_quotes f) ∷ [])
    ∙ append_assoc fields (field_of (without_quotes f) ∷ [])
        (map (λ x. field_of (without_quotes x)) (g ∷ gs))

parsed_fields :
    (f : Text) (gs : List Text)
    → parse_csv_line (row_of f gs) ≡ map (λ g. field_of (without_quotes g)) (f ∷ gs)
unfolding parse_csv_line
parsed_fields f gs = row_lem f gs []

-- Each text and what is read of it, in order.
abbrev pub AreFieldsOf : List Text → List Text → Type 0
AreFieldsOf [] [] = Unit
AreFieldsOf [] (f ∷ fs) = ⊥
AreFieldsOf (r ∷ rs) [] = ⊥
AreFieldsOf (r ∷ rs) (f ∷ fs) = IsFieldOf r f × AreFieldsOf rs fs

AreFieldsOf-map :
    (gs : List Text)
    → AreFieldsOf (map without_quotes gs) (map (λ g. field_of (without_quotes g)) gs)
AreFieldsOf-map [] = tt
AreFieldsOf-map (g ∷ gs) = (field_of-IsFieldOf (without_quotes g), AreFieldsOf-map gs)

-- A line of quoted fields, in which a quote is doubled and commas stand for themselves, is read as one
-- field for each, in order: the field without the quotes in it and without the white space at the ends
-- of what is then left, and the empty text if that leaves the word "none" in any case.
pub parse_csv_line-row_of :
    (f : Text) (gs : List Text)
    → AreFieldsOf (map without_quotes (f ∷ gs)) (parse_csv_line (row_of f gs))
parse_csv_line-row_of f gs =
    subst (AreFieldsOf (map without_quotes (f ∷ gs))) (sym (parsed_fields f gs))
      (AreFieldsOf-map (f ∷ gs))
