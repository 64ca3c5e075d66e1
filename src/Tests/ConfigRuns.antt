-- ===== src/Tests/ConfigRuns.antt =====
-- The configuration reader on a line, and on a file.
use qt_chat.Base.{◌≡◌, refl, [], ◌∷◌, ◌++◌, some}
use qt_chat.Base.Lists.{codes, str_eq}
use qt_chat.Base.Map.{lookup, insert, str_key}
use qt_chat.Config.{
  parse_line, trim_space, skip_blanks, drop_blanks, load_file, get_config_name, read_lines, fgets,
  clean_line, split_at, insert_new,
}
use qt_chat.Config.Pairs.{parse_line_keeps_first}

parse_line_keeps_first_example :
    lookup (codes "port") (parse_line (codes " port " ++ (61 ∷ codes "6000")) [])
    ≡ some (codes "6000")
unfolding trim_space skip_blanks drop_blanks str_eq lookup
parse_line_keeps_first_example =
    parse_line_keeps_first (codes " port ") (codes "6000") (codes "port") (codes "6000")
      (codes "port") [] (refl, (refl, (refl, (refl, (refl, (refl, tt)))))) refl refl

-- A comment is cut off, and the first of two values stays.
first_value :
    get_config_name (codes "a") (load_file (some (codes "a=1#x" ++ (10 ∷ codes "a = 2"))))
    ≡ some (codes "1")
unfolding get_config_name load_file read_lines fgets clean_line parse_line split_at trim_space
    skip_blanks drop_blanks insert_new insert lookup str_eq
first_value = refl
