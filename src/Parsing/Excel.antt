-- ===== src/Parsing/Excel.antt =====
-- core/parsing/streamingParser.js: the rows of an Excel worksheet. exceljs, which reads the file,
-- is not modelled: a worksheet is what it hands out.
use universal_data_onboarder.Base.{
  ℕ, Bool, true, ◌++◌, List, [], ◌∷◌, Option, none, some, ◌==◌, trim, Text, codes, if◌then◌else◌,
}
use universal_data_onboarder.Base.Dict.{put}
use universal_data_onboarder.Value.{Value, null, str, Fields, Host, to_text}

-- The keys that the code asks for in a cell's object; `none` where the object lacks the key.
pub record CellObject : Type 0 where
  pub result : Option Value
  pub text : Option Value
  pub rich_text : Option (List Text)
  pub has_error : Bool

-- `cell.value`, and `cell.text`, the display text.
pub data CellValue : Type 0 where
  plain : Value → CellValue
  object : CellObject → CellValue

pub record Cell : Type 0 where
  pub column : ℕ
  pub value : CellValue
  pub text : Value

concat : List Text → Text
concat [] = []
concat (s ∷ ss) = s ++ concat ss

-- `v ?? ""`
abbrev or_empty : Value → Value
or_empty null = str []
or_empty v = v

abbrev trimmed : Value → Value
trimmed (str s) = str (trim s)
trimmed v = or_empty v

from_object : CellObject → Value → Value
unfolding concat
from_object o shown = elim o.result [
  | some r ↦ or_empty r
  | none ↦ elim o.text [
    | some t ↦ trimmed t
    | none ↦ elim o.rich_text [
      | some parts ↦ str (trim (concat parts))
      | none ↦ if o.has_error then str [] else or_empty shown
    ]
  ]
]

-- `excelCellValue`
unfoldable pub excel_cell_value : Cell → Value
unfolding from_object trim
excel_cell_value cell = elim cell.value [ plain v ↦ trimmed v | object o ↦ from_object o cell.text ]

pub record Row : Type 0 where
  pub number : ℕ
  pub actual_cell_count : ℕ
  pub cells : List Cell

pub record Worksheet : Type 0 where
  pub header : List Cell
  pub rows : List Row

-- `String(cell.value ?? "").trim()`
header_text : Host → CellValue → Text
unfolding trim to_text
header_text h (plain null) = []
header_text h (plain v) = trim (to_text h v)
header_text h (object o) = codes "[object Object]"

-- `headers[colNumber]`, where a missing header is empty.
header_at : Host → List Cell → ℕ → Text
unfolding header_text
header_at h [] column = []
header_at h (c ∷ cs) column =
    let later = header_at h cs column in if c.column == column then header_text h c.value else later

add_cell : Host → List Cell → Fields → Cell → Fields
unfolding excel_cell_value header_at put
add_cell h headers row cell = elim (header_at h headers cell.column) [
  | [] ↦ row
  | c ∷ name ↦ put row (c ∷ name) (excel_cell_value cell)
]

row_record : Host → List Cell → Fields → List Cell → Fields
unfolding add_cell
row_record h headers row [] = row
row_record h headers row (c ∷ cs) = row_record h headers (add_cell h headers row c) cs

abbrev is_skipped : Row → Bool
is_skipped r = if r.number == 1 then true else r.actual_cell_count == 0

unfoldable pub sheet_records : Host → List Cell → List Row → List Fields
unfolding row_record
sheet_records h headers [] = []
sheet_records h headers (r ∷ rs) =
    let rest = sheet_records h headers rs in
    if is_skipped r then rest else row_record h headers [] r.cells ∷ rest

pub data ExcelError : Type 0 where
  unreadable : Text → ExcelError
  no_worksheet : ExcelError
