-- ===== src/Utils/Tests.antt =====
-- An example of the law about texts in quotes.
use linglong_box.Prelude.{◌≡◌, some, ◌<>◌}
use linglong_box.Utils.Paths.{escape}
use linglong_box.Utils.Quoting.{read_quoted, read_quoted-escape}

read_quoted-escape_example :
    read_quoted (escape "a \"b\" \\c" <> "\" rest") ≡ some ("a \"b\" \\c", " rest")
read_quoted-escape_example = read_quoted-escape "a \"b\" \\c" " rest"
