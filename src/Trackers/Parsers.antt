-- ===== src/Trackers/Parsers.antt =====
-- src/trackers/parsers: the parsers of spreadsheets and of comma-separated values. What they give is
-- JSON text: sheets of rows of cells, or rows of cells.
use retrack.Prelude.{String, Bool, ◌&&◌, ◌||◌, Option, none, some, List, [], ◌∷◌, and_then}
use retrack.Types.{Bytes}
use retrack.Env.{Env, MediaType, Sheet}

-- The records that are read, in their order; one that is not is passed over.
unfoldable pub readable_rows : List (Option (List String)) → List (List String)
readable_rows [] = []
readable_rows (none ∷ rest) = readable_rows rest
readable_rows (some record_cells ∷ rest) = record_cells ∷ readable_rows rest

abbrev or_xls : Option (List Sheet) → Option (List Sheet) → Option (List Sheet)
or_xls (some sheets) other = some sheets
or_xls none other = other

module _ (env : Env) where
  -- CsvParser::supports, CsvParser::parse
  unfoldable pub csv_supports : MediaType → Bool
  csv_supports m = env.same_name m.ty "text" && env.same_name m.subty "csv"

  unfoldable pub csv_parse : Bytes → Option Bytes
  unfolding readable_rows
  csv_parse content = env.rows_to_vec (readable_rows (env.csv_records content))

  -- XlsParser::supports, XlsParser::parse
  unfoldable pub xls_supports : MediaType → Bool
  xls_supports m =
      env.same_name m.ty "application"
      && (env.same_name m.subty "vnd.ms-excel"
          || env.same_name m.subty "vnd.openxmlformats-officedocument.spreadsheetml.sheet")

  -- the newer format first
  unfoldable pub xls_parse : Bytes → Option Bytes
  xls_parse content =
      and_then (or_xls (env.open_xlsx content) (env.open_xls content)) env.sheets_to_vec
