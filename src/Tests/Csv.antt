-- ===== src/Tests/Csv.antt =====
-- import/csv.rs on concrete texts.
use gabbro.Csv.{CsvImportConfig, import_csv, parse_csv_line}
use gabbro.Prelude.{[], codes, map, none, ok, refl, some, ◌∷◌, ◌≡◌}
use gabbro.Csv.Quoting.{AreFieldsOf, parse_csv_line-row_of, row_of, without_quotes}

parse_csv_line-row_of_example :
    AreFieldsOf
      (map without_quotes (codes "a\"b" ∷ codes "x, y" ∷ codes "None" ∷ []))
      (parse_csv_line (row_of (codes "a\"b") (codes "x, y" ∷ codes "None" ∷ [])))
parse_csv_line-row_of_example =
    parse_csv_line-row_of (codes "a\"b") (codes "x, y" ∷ codes "None" ∷ [])

-- The quote in the password is lost.
quote_run : parse_csv_line (row_of (codes "a\"b") []) ≡ codes "ab" ∷ []
unfolding parse_csv_line
quote_run = refl

abbrev config : CsvImportConfig
config = record {
  title_col = some (codes "name");
  url_col = none;
  username_col = none;
  password_col = some (codes "password");
  notes_col = none;
}

import_run :
    import_csv (codes "name,password,PIN\r\nMail,\"p,w\",1\r\n\r\n") config
    ≡ ok (
        record {
          title = codes "Mail";
          url = [];
          username = [];
          password = codes "p,w";
          notes = none;
          custom_fields = (codes "PIN", codes "1") ∷ [];
        }
        ∷ [])
unfolding import_csv
import_run = refl
