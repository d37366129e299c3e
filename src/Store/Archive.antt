-- ===== src/Store/Archive.antt =====
-- daemon/internal/logstore/archive.go. The archive file of the terminal is the list of its bytes; base64 is a parameter,
-- and the directory and the file can be written. A time before the epoch is 0, before which there are no chunks.
use shell_sync.Base.{
  string_key, ℕ, ◌-◌, ◌≡◌, refl, ap, ◌∙◌, Bool, true, false, not, String, Option, none, some, List,
  [], ◌∷◌, ◌++◌, take, keep_if, ltb, nat_eqb, if◌then◌else◌, ◌==◌, All,
}
use shell_sync.Base.Dict.{lookup, lookup-insert_self}
use shell_sync.Log.{Row}
use shell_sync.Store.{Database}
use shell_sync.Store.Logs.{list_before, delete_before}

-- The number of chunks that were archived, or an error.
pub data Archived : Type 0 where
  chunks : ℕ → Archived
  not_configured not_positive not_decoded : Archived

module _ (decode : String → Option (List ℕ)) where
  -- The bytes of the rows up to the first that cannot be decoded, and whether there is none.
  unfoldable pub decoded : List Row → List ℕ × Bool
  decoded [] = ([], true)
  decoded (r ∷ rs) = prepend (decode r.content_b64) (decoded rs)
    where
      prepend : Option (List ℕ) → List ℕ × Bool → List ℕ × Bool
      prepend none rest = ([], false)
      prepend (some bytes) (more, whole) = (bytes ++ more, whole)

  -- After an error the file holds what the writer had passed on, `spilled` bytes of it.
  abbrev archived_in :
      List ℕ × Bool → Database → List ℕ → String → ℕ → ℕ → Database × List ℕ × Archived
  archived_in (bytes, false) db file id cutoff spilled =
      (db, file ++ take spilled bytes, not_decoded)
  archived_in (bytes, true) db file id cutoff spilled =
      let out = delete_before db id cutoff in (out.0, file ++ bytes, chunks out.1)

  -- ArchiveOlderThan, at a time and with an age in milliseconds.
  unfoldable pub archive_older_than :
      Database → List ℕ → String → String → ℕ → ℕ → ℕ → Database × List ℕ × Archived
  archive_older_than db file logs_path id now age spilled =
      if logs_path == ""
      then (db, file, not_configured)
      else if nat_eqb age 0
      then (db, file, not_positive)
      else archived_in (decoded (list_before db id (now - age))) db file id (now - age) spilled

young :
    (cutoff : ℕ) (rs : List Row)
    → All (λ r. ltb r.created_at cutoff ≡ true) rs
    → keep_if (λ r. not (ltb r.created_at cutoff)) rs ≡ []
young cutoff [] a = refl
young cutoff (r ∷ rs) (p, a) = rw p (young cutoff rs a)

-- When every chunk of a terminal is old, none is left after the deletion.
pub lookup-delete_before :
    (db : Database) (id : String) (rs : List Row) (cutoff : ℕ)
    → lookup id db.logs ≡ some rs
    → All (λ r. ltb r.created_at cutoff ≡ true) rs
    → lookup id (delete_before db id cutoff).0.logs ≡ some []
unfolding delete_before
lookup-delete_before db id rs cutoff found old = rw found (
    lookup-insert_self id (keep_if (λ r. not (ltb r.created_at cutoff)) rs) db.logs
    ∙ ap some (young cutoff rs old))
