-- ===== src/Migration.antt =====
-- internal/store/migration.go, the files: which migrations there are, and in which order. The
-- embedded file system is a parameter.
pub mod Run
pub mod Applied
pub mod Order
use muninn.Prelude.{
  ℕ, ◌+◌, ◌-◌, ◌/◌, ◌%◌, ◌==◌, Bool, true, false, ◌&&◌, ◌||◌, Option, none, some, List, [], ◌∷◌,
  ◌++◌, if◌then◌else◌, ltb, map, take,
}
use muninn.Text.{Text, codes, text_eq, is_empty, trim_space}
use muninn.Text.Split.{split2}
use muninn.Score.{Error, wrapped}
use muninn.Exec.{Result, ok, err}

pub record Migration : Type 0 where
  pub id : Text
  pub author : Text
  pub description : Text
  pub sqlite : Text
  pub postgres : Text

-- `strings.TrimSuffix`.
unfoldable pub trim_suffix : Text → Text → Text
trim_suffix suffix [] = []
trim_suffix suffix (c ∷ s) =
    let rest = trim_suffix suffix s in if text_eq (c ∷ s) suffix then [] else c ∷ rest

-- `strings.ReplaceAll(s, "_", " ")`.
abbrev pub spaced : Text → Text
spaced = map (λ c. if c == b'_' then b' ' else c)

abbrev pub parsed_name : Option (Text × Text) → Text × Text
parsed_name none = ([], [])
parsed_name (some (id, desc)) = (id, spaced desc)

unfoldable pub parse_migration_file : Text → Text × Text
parse_migration_file name = parsed_name (split2 b'_' (trim_suffix (codes ".sql") name))

-- The names in `migrations/sqlite`, and the content of a file under `migrations`.
pub record Files : Type 0 where
  pub read_dir : Result (List Text)
  pub read_file : Text → Result Text

-- `<` on strings. The order of code points is that of the bytes of the UTF-8 encoding.
abbrev pub text_ltb : Text → Text → Bool
text_ltb [] [] = false
text_ltb [] (d ∷ t) = true
text_ltb (c ∷ s) [] = false
text_ltb (c ∷ s) (d ∷ t) = ltb c d || c == d && text_ltb s t

unfoldable pub insert_name : Text → List Text → List Text
insert_name name [] = name ∷ []
insert_name name (n ∷ ns) =
    let rest = insert_name name ns in if text_ltb n name then n ∷ rest else name ∷ n ∷ ns

-- `sort.Slice`; the names of a directory are distinct.
unfoldable pub sort_names : List Text → List Text
sort_names [] = []
sort_names (n ∷ ns) = insert_name n (sort_names ns)

-- A file that cannot be read is an empty script for Postgres.
abbrev pub text_or_empty : Result Text → Text
text_or_empty (ok s) = s
text_or_empty (err e) = []

abbrev add_migration : Migration → Result (List Migration) → Result (List Migration)
add_migration m (ok ms) = ok (m ∷ ms)
add_migration m (err e) = err e

abbrev pub with_sqlite :
    Files → Text → Text → Text → Result Text → Result (List Migration) → Result (List Migration)
with_sqlite files name id desc (err e) rest =
    err (wrapped (codes "read sqlite/" ++ name ++ codes ": ") e)
with_sqlite files name id desc (ok script) rest =
    add_migration
      (record {
        id = id;
        author = codes "muninn";
        description = desc;
        sqlite = trim_space script;
        postgres = trim_space (text_or_empty (files.read_file (codes "postgres/" ++ name)));
      })
      rest

-- The loop over the entries.
unfoldable pub load_each : Files → List Text → Result (List Migration)
load_each files [] = ok []
load_each files (name ∷ names) =
    let rest = load_each files names in
    let (id, desc) = parse_migration_file name in
    if is_empty id
    then rest
    else with_sqlite files name id desc (files.read_file (codes "sqlite/" ++ name)) rest

abbrev pub load_sorted : Files → Result (List Text) → Result (List Migration)
load_sorted files (ok names) = load_each files (sort_names names)
load_sorted files (err e) = err (wrapped (codes "read sqlite migrations: ") e)

unfoldable pub load_migrations : Files → Result (List Migration)
load_migrations files = load_sorted files files.read_dir

abbrev hex_character : ℕ → ℕ
hex_character d = if ltb d 10 then b'0' + d else b'a' + (d - 10)

-- `%x` of bytes.
abbrev pub hex : List ℕ → Text
hex [] = []
hex (b ∷ bs) = hex_character (b / 16) ∷ hex_character (b % 16) ∷ hex bs

-- `sha256` is SHA-256 of the UTF-8 encoding of a text, a list of 32 bytes.
unfoldable pub checksum : (Text → List ℕ) → Migration → Text
checksum sha256 m = hex (take 8 (sha256 (m.sqlite ++ b'|' ∷ m.postgres)))
