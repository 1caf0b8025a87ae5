-- ===== src/Migrations/Columns.antt =====
-- `sa.Column` and `mapped_column` with the arguments that the repository gives them.
use eve_api_cache.Base.{true, false, none, some, Text}
use eve_api_cache.Ddl.{Column, ColumnType}

abbrev pub nullable : Text → ColumnType → Column
nullable name type = record {
  name = name;
  type = type;
  nullable = true;
  primary_key = false;
  autoincrement = false;
  server_default = none;
}

abbrev pub required : Text → ColumnType → Column
required name type = record (nullable name type) { nullable = false }

abbrev pub key : Text → ColumnType → Column
key name type = record (required name type) { primary_key = true }

abbrev pub numbered : Column → Column
numbered c = record c { autoincrement = true }

abbrev pub defaulted : Text → Column → Column
defaulted t c = record c { server_default = some t }
