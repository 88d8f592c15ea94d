-- ===== src/Parsing/Formats.antt =====
-- core/parsing/streamingParser.js, orchestration/migrationImport.service.js: which format a file
-- is in.
use universal_data_onboarder.Base.{
  Bool, true, false, ◌||◌, ◌&&◌, List, [], ◌∷◌, ◌==◌, lower, Text, codes, ◌===◌, includes, reverse,
  if◌then◌else◌, map,
}
use universal_data_onboarder.Base.Result.{Result, ok, err}

pub data Format : Type 0 where
  csv json excel sql : Format

-- Whether the second text starts with the first, in any case.
prefix_of : Text → Text → Bool
unfolding lower
prefix_of [] s = true
prefix_of (k ∷ ks) [] = false
prefix_of (k ∷ ks) (c ∷ s) = k == lower c && prefix_of ks s

-- `/…$/i.test(name)`
unfoldable pub has_extension : Text → Text → Bool
unfolding prefix_of
has_extension ext name = prefix_of (reverse ext) (reverse name)

-- `detectSourceFormat(filePath)` of the parser; its error carries the path.
unfoldable pub detect_path_format : Text → Result Text Format
unfolding has_extension
detect_path_format path =
    if has_extension (codes ".csv") path
    then ok csv
    else if has_extension (codes ".xlsx") path
    then ok excel
    else if has_extension (codes ".xls") path
    then ok excel
    else if has_extension (codes ".json") path
    then ok json
    else if has_extension (codes ".sql") path
    then ok sql
    else err path

abbrev csv_mime_types : List Text
csv_mime_types = map codes ("text/csv" ∷ "application/vnd.ms-excel" ∷ "text/plain" ∷ [])

abbrev json_mime_types : List Text
json_mime_types = map codes ("application/json" ∷ "text/plain" ∷ [])

abbrev excel_mime_types : List Text
excel_mime_types =
    map codes ("application/vnd.openxmlformats-officedocument.spreadsheetml.sheet" ∷ [])

abbrev sql_mime_types : List Text
sql_mime_types = map codes ("application/sql" ∷ "text/x-sql" ∷ [])

-- What multer says of an uploaded file. A missing `originalname` is the empty one.
pub record Upload : Type 0 where
  pub original_name : Text
  pub mimetype : Text

-- `detectSourceFormat(file)` of the upload path; it is thrown with status code 400.
unfoldable pub detect_upload_format : Upload → Result Text Format
unfolding has_extension ◌===◌
detect_upload_format file =
    if has_extension (codes ".json") file.original_name
    then ok json
    else if has_extension (codes ".xlsx") file.original_name
        || includes excel_mime_types file.mimetype
    then ok excel
    else if has_extension (codes ".xls") file.original_name
    then ok excel
    else if has_extension (codes ".csv") file.original_name
    then ok csv
    else if has_extension (codes ".sql") file.original_name || includes sql_mime_types file.mimetype
    then ok sql
    else if includes json_mime_types file.mimetype
    then ok json
    else if includes csv_mime_types file.mimetype
    then ok csv
    else err file.mimetype
