-- ===== src/Tests/References.antt =====
-- Tests of references.
use deltaswamp.Prelude.{
  [], all, any, false, inl, is_empty, map, none, refl, select, some, ◌++◌, ◌∷◌, ◌≡◌,
}
use deltaswamp.Prelude.Text.{
  codes, codes_eq, drop_text, folds_to, has_prefix, is_space, lookup, lower, lower_is, lstrip, mem,
  minus, occurs, strip, to_lower,
}
use deltaswamp.Reference.Names.{SameNames, parse_name-full_name}
use deltaswamp.Reference.Parse.{
  Defaults, Host, TableRef, catalog_schemes, contains, drop_codes, full_name, is_alpha, is_drive,
  is_one_of, is_scheme_char, local_path, looks_like_path, lower_text, lstrip_char, name_of, named,
  parse_name, partition, rstrip_char, scheme_of, scheme_rest, split_from, split_unquoted,
  starts_with_any, storage_schemes, unquoted, unquoted_from, unreachable_prefixes,
}
use deltaswamp.Reference.Quoting.{split_identifier-join_dots}
use deltaswamp.Reference.Split.{
  Text, check_parts, escape, finish, in_backticks, invalid, is_plain, join_dots, parsed, quote,
  scan, split_identifier, trim_left, trim_right, unreachable_dbfs,
}
use deltaswamp.Reference.Uri.{
  glue_entry, glue_name, glue_pieces, is_short_file, is_unreachable, metastore_name,
  parse_catalog_uri, parse_dotted, parse_glue, parse_metastore, parse_plain, parse_ref,
  parse_stripped, parse_uri, split_all,
}
use deltaswamp.Reference.Whole.{Ensures, IsWhole, parse_ref-Ensures}
use deltaswamp.Sql.Literals.{escape_literal, literal, read_literal, read_literal-literal, replace}

abbrev main : Text
main = codes "main"

abbrev odd_schema : Text
odd_schema = codes "my.sch`ema"

abbrev orders_name : Text
orders_name = codes "orders"

no_empty_part : any is_empty (main ∷ odd_schema ∷ orders_name ∷ []) ≡ false
unfolding any
no_empty_part = refl

quoted_text :
    join_dots (map quote (main ∷ odd_schema ∷ orders_name ∷ [])) ≡ codes "main.`my.sch``ema`.orders"
unfolding join_dots quote is_plain all in_backticks escape
quoted_text = refl

split_identifier-join_dots_example :
    (split_identifier (join_dots (map quote (main ∷ odd_schema ∷ orders_name ∷ [])))
      ≡ parsed (main ∷ odd_schema ∷ orders_name ∷ []))
    × (split_identifier (join_dots (map in_backticks (main ∷ odd_schema ∷ orders_name ∷ [])))
        ≡ parsed (main ∷ odd_schema ∷ orders_name ∷ []))
split_identifier-join_dots_example =
    split_identifier-join_dots main (odd_schema ∷ orders_name ∷ []) no_empty_part

-- A machine without the path asked for, and a connection bound to a catalog.
abbrev machine : Host
machine = record { exists_locally = λ p. false; expanduser = λ p. p }

abbrev bound : Defaults
bound = record { default_catalog = some main; default_schema = none }

uri :
    parse_ref machine bound false (codes " uc://main.sales.orders ")
    ≡ parsed
        (named main (codes "sales") orders_name (codes "uc") none (codes "uc://main.sales.orders"))
unfolding any all select drop_text codes_eq to_lower is_space lstrip strip lower lower_is folds_to
    has_prefix occurs mem minus lookup trim_left trim_right finish scan check_parts split_identifier
    is_plain escape in_backticks quote join_dots full_name name_of parse_name unquoted_from unquoted
    contains split_from split_unquoted lower_text drop_codes lstrip_char rstrip_char partition
    is_alpha is_scheme_char scheme_rest scheme_of is_drive starts_with_any is_one_of looks_like_path
    local_path storage_schemes catalog_schemes unreachable_prefixes parse_dotted split_all
    metastore_name parse_metastore glue_pieces glue_entry glue_name parse_glue parse_catalog_uri
    parse_uri parse_plain is_unreachable is_short_file parse_stripped parse_ref
uri = refl

dbfs : parse_ref machine bound false (codes "/mnt/data/t") ≡ invalid unreachable_dbfs
unfolding any all select drop_text codes_eq to_lower is_space lstrip strip lower lower_is folds_to
    has_prefix occurs mem minus lookup trim_left trim_right finish scan check_parts split_identifier
    is_plain escape in_backticks quote join_dots full_name name_of parse_name unquoted_from unquoted
    contains split_from split_unquoted lower_text drop_codes lstrip_char rstrip_char partition
    is_alpha is_scheme_char scheme_rest scheme_of is_drive starts_with_any is_one_of looks_like_path
    local_path storage_schemes catalog_schemes unreachable_prefixes parse_dotted split_all
    metastore_name parse_metastore glue_pieces glue_entry glue_name parse_glue parse_catalog_uri
    parse_uri parse_plain is_unreachable is_short_file parse_stripped parse_ref
dbfs = refl

parse_ref-Ensures_example :
    Ensures IsWhole (parse_ref machine bound false (codes " uc://main.sales.orders "))
parse_ref-Ensures_example =
    parse_ref-Ensures machine bound false (codes " uc://main.sales.orders ") (tt, tt)

abbrev entry : TableRef
entry = named main odd_schema orders_name (codes "glue") (some main) (codes "glue://x")

parse_name-full_name_example :
    (text : Text) × (q : TableRef) × (full_name entry ≡ parsed text)
    × (parse_name bound text [] ≡ parsed q)
    × SameNames entry q
parse_name-full_name_example =
    parse_name-full_name entry bound [] (inl (refl, tt, tt, tt, refl)) refl

-- A value with both of the characters that are escaped, in a statement.
quoted_value : literal (some (codes "it's \\")) ≡ codes "'it\\'s \\\\'"
unfolding literal escape_literal replace
quoted_value = refl

read_literal-literal_example :
    read_literal (literal (some (codes "it's \\")) ++ codes ", 'x'")
    ≡ some (codes "it's \\", codes ", 'x'")
read_literal-literal_example = read_literal-literal (codes "it's \\") (codes ", 'x'")
