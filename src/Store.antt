-- ===== src/Store.antt =====
-- daemon/internal/repository: the tables of the database and the statements on one table that the
-- repositories share. A nullable text column that is NULL reads as the empty text, as in the Go structs, and
-- times are milliseconds. The schema's keys are checked as it declares them; a database that cannot be
-- reached is not modelled.
pub mod Devices
pub mod Tasks
pub mod Todos
pub mod Terminals
pub mod Settings
pub mod Rows
pub mod Keys
pub mod Logs
pub mod Archive
pub mod Links
mod Tests
use shell_sync.Base.{
  string_key, ℕ, Bool, true, false, ◌&&◌, ◌||◌, not, String, Option, none, some, List, [], ◌∷◌, map,
  keep_if, if◌then◌else◌, ◌==◌,
}
use shell_sync.Base.Order.{ℤ}
use shell_sync.Base.Dict.{Dict, lookup, insert, delete}
use shell_sync.Log.{Row}

pub record Device : Type 0 where
  pub id : String
  pub user_id : String
  pub name : String
  pub platform : String
  pub session_token : String
  pub last_seen_at : ℕ
  pub created_at : ℕ
  pub revoked : Bool

pub record Task : Type 0 where
  pub id : String
  pub user_id : String
  pub name : String
  pub description : String
  pub status : String
  pub color : String
  pub archived : Bool
  pub created_at : ℕ
  pub updated_at : ℕ

-- os_pid is never set; env is a JSON text.
pub record Terminal : Type 0 where
  pub id : String
  pub user_id : String
  pub task_id : String
  pub name : String
  pub shell_type : String
  pub cwd : String
  pub cols : ℤ
  pub rows : ℤ
  pub env : String
  pub status : String
  pub exit_code : Option ℤ
  pub last_seq : ℕ
  pub created_at : ℕ
  pub last_active_at : ℕ
  pub updated_at : ℕ

pub record Todo : Type 0 where
  pub id : String
  pub user_id : String
  pub task_id : String
  pub terminal_id : String
  pub title : String
  pub content : String
  pub status : String
  pub priority : ℤ
  pub sort_order : ℤ
  pub created_at : ℕ
  pub updated_at : ℕ

-- Each table by its primary key; the rows of a terminal's log by the terminal.
pub record Database : Type 0 where
  pub users : Dict String String
  pub devices : Dict String Device
  pub tasks : Dict String Task
  pub terminals : Dict String Terminal
  pub todos : Dict String Todo
  pub logs : Dict String (List Row)
  pub settings : Dict String String

abbrev pub empty_db : Database
empty_db = record {
  users = [];
  devices = [];
  tasks = [];
  terminals = [];
  todos = [];
  logs = [];
  settings = [];
}

-- sql.ErrNoRows, a key of the schema that is broken, and a field that the repository requires.
pub data Failure : Type 0 where
  no_rows constraint required : Failure

pub data Result {ℓ} (A : Type ℓ) : Type ℓ where
  ok : A → Result A
  failed : Failure → Result A

-- What an operation returns that only fails or works.
abbrev pub Done : Type 0
Done = Result (Unit {0})

module _ {R : Type 0} where
  -- The rows of a table, in its order.
  abbrev pub rows_of : Dict String R → List R
  rows_of [] = []
  rows_of ((k, r) ∷ t) = r ∷ rows_of t

  -- SELECT ... WHERE
  abbrev pub select : (R → Bool) → Dict String R → List R
  select test t = keep_if test (rows_of t)

  -- QueryRow
  abbrev pub first : List R → Result R
  first [] = failed no_rows
  first (r ∷ rs) = ok r

  abbrev pub found : Option R → Result R
  found none = failed no_rows
  found (some r) = ok r

  -- UPDATE ... WHERE test
  unfoldable pub update_where : (R → Bool) → (R → R) → Dict String R → Dict String R
  update_where test f [] = []
  update_where test f ((k, r) ∷ t) =
      if test r then (k, f r) ∷ update_where test f t else (k, r) ∷ update_where test f t

abbrev pub is_some {ℓ} : {V : Type ℓ} → Option V → Bool
is_some none = false
is_some (some v) = true

abbrev pub has_key {ℓ} : {V : Type ℓ} → String → Dict String V → Bool
has_key k t = is_some (lookup k t)

-- A nullable reference is free or names a row.
abbrev pub refers {ℓ} : {V : Type ℓ} → String → Dict String V → Bool
refers k t = k == "" || has_key k t

-- A field of a patch that is absent keeps the column.
abbrev pub patched {ℓ} : {A : Type ℓ} → Option A → A → A
patched none old = old
patched (some new) old = new

abbrev pub absent {ℓ} : {A : Type ℓ} → Option A → Bool
absent none = true
absent (some x) = false

-- The defaults that Create fills in.
abbrev pub or_default : String → String → String
or_default text default = if text == "" then default else text
