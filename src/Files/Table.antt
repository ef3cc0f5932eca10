-- ===== src/Files/Table.antt =====
-- A file system that is a table of its files.
use spa_device.Prelude.{
  ℕ, ◌≡◌, List, Option, none, some, if◌then◌else◌, ℕ_eq, List_eq, list_eq, eq_refl, arith,
}
use spa_device.Prelude.Assoc.{HashMap, lookup, insert, remove, lookup-insert}
use spa_device.Files.{FileSystem, LawfulFiles}

abbrev pub Table : Type 0
Table = HashMap (List ℕ) (List ℕ)

abbrev pub move : Table → List ℕ → List ℕ → Option Table
move t from to = elim (lookup t from) [
  | none ↦ none
  | some content ↦ some (insert (remove t from) to content)
]

instance abbrev pub table : FileSystem Table
table = record {
  read = lookup;
  write = λ t path content. some (insert t path content);
  rename = move;
  create_dir_all = λ t path. some t;
}

move_read :
    (t u : Table) (from to content : List ℕ)
    → lookup t from ≡ some content
    → move t from to ≡ some u
    → lookup u to ≡ some content
move_read t u from to content r h =
    ground (arith, h, r, lookup-insert (remove t from) to content to, eq_refl to)

write_read :
    (t u : Table) (path content : List ℕ)
    → some (insert t path content) ≡ some u
    → (q : List ℕ) → lookup u q ≡ (if list_eq path q then some content else lookup t q)
write_read t u path content h q = ground (arith, h, lookup-insert t path content q)

same_read : (t u : Table) → some t ≡ some u → (q : List ℕ) → lookup u q ≡ lookup t q
same_read t u h q = ground (arith, h)

pub table_lawful : LawfulFiles table
table_lawful = record {
  read-write = write_read;
  read-rename = move_read;
  read-create_dir_all = λ t u path. same_read t u;
}
