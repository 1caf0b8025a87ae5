-- ===== src/Examples/Naming.antt =====
-- A run of `write_names` on a database of lists.
use eve_api_cache.Base.{
  ◌+◌, ◌≡◌, refl, true, none, some, [], ◌∷◌, if◌then◌else◌, ltb, text, text_eq, arith,
}
use eve_api_cache.Base.Exec.{ok}
use eve_api_cache.Base.Ints.{negsuc}
use eve_api_cache.Json.{Value, int, str, list, object, nil, cons, end, member}
use eve_api_cache.Cache.Names.{get_name, set_names, name_value}
use eve_api_cache.Archive.Batches.{chunks, chunks_from}
use eve_api_cache.Archive.Mappings.{extract_name_mappings, of_list, mapping, truthy, get_member}
use eve_api_cache.Archive.Tables.{IdNameCache}
use eve_api_cache.Archive.Sessions.{ArchiveEnv, Session, execute, commit}
use eve_api_cache.Archive.Names.{
  name_row, name_rows, insert_names, write_mappings, of_data, write_names,
}
use eve_api_cache.Archive.Naming.{get_name-write_names}
use eve_api_cache.Examples.{redis}
use eve_api_cache.Examples.Database.{archive_env, no_rows}

abbrev jita : Value
jita = object (
    member (text "id") (int true 6) (
      member (text "name") (str (text "Jita"))
        (member (text "category") (str (text "system")) end)))

abbrev aenv : ArchiveEnv
aenv = record (archive_env (λ n. true)) {
  json = record {
    loads = λ b.
        if text_eq b (text "names")
        then some (list (cons jita nil))
        else some (name_value (text "Jita") (some (text "system")));
    dumps = λ v. text "name";
    dumps_sorted = λ v. text "{}";
    dumps_compact = λ v. text "{}";
  };
}

abbrev row : IdNameCache
row = record {
  datasource = text "tranquility";
  entity_id = negsuc 5;
  entity_name = text "Jita";
  category = some (text "system");
  first_seen_at = 90;
  last_updated_at = 90;
}

abbrev fresh : Session aenv
fresh = record { committed = no_rows; working = no_rows; disk = λ path. none; sent = 0 }

built :
    name_rows (text "tranquility") 90 (of_data aenv redis (aenv.json.loads (text "names")))
    ≡ ok (row ∷ [])
unfolding name_rows name_row extract_name_mappings of_list mapping truthy get_member
built = refl

returned :
    (write_names aenv redis (text "tranquility") (text "names") 90 90 (fresh, λ t k. none)).0
    ≡ ok tt
unfolding write_names write_mappings insert_names set_names execute commit name_rows name_row chunks
    chunks_from extract_name_mappings of_list mapping truthy get_member
returned = refl

get_name-write_names_example :
    get_name redis aenv.json
      (text "tranquility")
      (negsuc 5)
      100
      (write_names aenv redis (text "tranquility") (text "names") 90 90 (fresh, λ t k. none)).1.1
    ≡ (if ltb 100 (90 + 86400)
        then some (name_value (text "Jita") (some (text "system")))
        else none)
get_name-write_names_example =
    get_name-write_names aenv (text "tranquility") 90 redis (text "names") [] [] row 90 100
      (fresh, λ t k. none) built tt (omega arith) refl returned
