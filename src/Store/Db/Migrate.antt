-- ===== src/Store/Db/Migrate.antt =====
-- crates/cone-store/src/db.rs, migrate: the statements that bring a database file up to date.
pub mod Created
pub mod Again
use traffic_cone.Common.{
  ℕ, ◌+◌, Bool, true, false, Option, none, some, List, [], ◌∷◌, ◌++◌, map, ◌==◌, if◌then◌else◌,
  get_elem?,
}
use traffic_cone.Common.Int.{ℤ, pos, ltb_ℤ}
use traffic_cone.Store.Db.{Db, empty_db}

pub data Table : Type 0 where
  certs keys ssh_keys ca_certs apps routes ssh_routes integrity audit_log : Table

abbrev pub index : Table → ℕ
index Table.certs = 0
index Table.keys = 1
index Table.ssh_keys = 2
index Table.ca_certs = 3
index Table.apps = 4
index Table.routes = 5
index Table.ssh_routes = 6
index Table.integrity = 7
index Table.audit_log = 8

-- A database file: the rows of `schema_version`, if it is there, and the tables with their rows.
pub record DbFile : Type 0 where
  pub versions : Option (List ℤ)
  pub tables : Table → Bool
  pub rows : Db

pub data Statement : Type 0 where
  create_versions insert_version : Statement
  create_table : Table → Statement
  set_version : ℤ → Statement

abbrev pub clear : Table → Db → Db
clear Table.certs d = record d { certs = [] }
clear Table.keys d = record d { keys = [] }
clear Table.ssh_keys d = record d { ssh_keys = [] }
clear Table.ca_certs d = record d { ca_certs = [] }
clear Table.apps d = record d { apps = [] }
clear Table.routes d = record d { routes = [] }
clear Table.ssh_routes d = record d { ssh_routes = [] }
clear Table.integrity d = record d { integrity = [] }
clear Table.audit_log d = record d { audit_log = [] }

abbrev pub mark : Table → (Table → Bool) → Table → Bool
mark t has u = if index t == index u then true else has u

-- `CREATE TABLE IF NOT EXISTS` of `migration_001`: a new table has no rows.
unfoldable pub create : Table → DbFile → DbFile
create t f = if f.tables t then f else record f { tables = mark t f.tables; rows = clear t f.rows }

-- `UPDATE schema_version SET version = v`
abbrev pub update_versions : ℤ → Option (List ℤ) → Option (List ℤ)
update_versions v none = none
update_versions v (some vs) = some (map (λ (old : ℤ). v) vs)

-- `INSERT INTO schema_version SELECT 0 WHERE NOT EXISTS …`
abbrev pub initial_version : Option (List ℤ) → Option (List ℤ)
initial_version none = none
initial_version (some []) = some (pos 0 ∷ [])
initial_version (some (v ∷ vs)) = some (v ∷ vs)

abbrev pub create_list : Option (List ℤ) → Option (List ℤ)
create_list none = some []
create_list (some vs) = some vs

unfoldable pub execute : Statement → DbFile → DbFile
unfolding create
execute create_versions f = record f { versions = create_list f.versions }
execute insert_version f = record f { versions = initial_version f.versions }
execute (create_table t) f = create t f
execute (set_version v) f = record f { versions = update_versions v f.versions }

unfoldable pub execute_all : List Statement → DbFile → DbFile
unfolding execute
execute_all [] f = f
execute_all (s ∷ ss) f = execute_all ss (execute s f)

-- `SELECT version FROM schema_version`, the first row.
abbrev pub version_of : DbFile → Option ℤ
version_of f = elim f.versions [ none ↦ none | some vs ↦ get_elem? vs 0 ]

-- The tables of `migration_001`, in order.
abbrev pub all_tables : List Table
all_tables =
    Table.certs ∷ Table.keys ∷ Table.ssh_keys ∷ Table.ca_certs ∷ Table.apps ∷ Table.routes
    ∷ Table.ssh_routes ∷ Table.integrity ∷ Table.audit_log ∷ []

abbrev pub migration_001 : List Statement
migration_001 = map create_table all_tables

-- What `migrate` executes once it has read the version.
abbrev pub pending : Option ℤ → List Statement
pending none = []
pending (some v) = if ltb_ℤ v (pos 1) then migration_001 ++ set_version (pos 1) ∷ [] else []

abbrev pub prepared : DbFile → DbFile
prepared f = execute_all (create_versions ∷ insert_version ∷ []) f

-- All statements of a run of `migrate` on a file.
abbrev pub script : DbFile → List Statement
script f = create_versions ∷ insert_version ∷ pending (version_of (prepared f))

-- Without a row `query_row` fails.
unfoldable pub migrate : DbFile → Option DbFile
unfolding execute_all
migrate f = elim (version_of (prepared f)) [
  | none ↦ none
  | some v ↦ some (execute_all (pending (some v)) (prepared f))
]

-- A file that `Connection::open` has just created.
abbrev pub new_file : DbFile
new_file = record { versions = none; tables = λ t. false; rows = empty_db }
