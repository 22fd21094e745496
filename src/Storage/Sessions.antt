-- ===== src/Storage/Sessions.antt =====
-- ufoundry/storage/db.py, the tables `sessions`, `messages` and `message_attachments`.
pub mod Found
use ufoundry.Base.{
  ℕ, ◌+◌, Bool, true, false, not, ◌&&◌, ◌||◌, ◌==◌, nat_eq, Option, none, some, List, [], ◌∷◌, ◌++◌,
  map, reverse, Text, text_eq, if◌then◌else◌, is_empty, filter, take, strip,
}
use ufoundry.Storage.Rows.{select_first}

pub record SessionKey : Type 0 where
  pub chat_id : Text
  pub channel : Text
  pub connector : Text

pub record SessionRow : Type 0 where
  pub id : ℕ
  pub key : SessionKey
  pub created_at : ℕ

pub record MessageRow : Type 0 where
  pub id : ℕ
  pub session_id : ℕ
  pub role : Text
  pub content : Text
  pub created_at : ℕ

-- A file that is kept for a message; `file` is its base64.
pub record Attachment : Type 0 where
  pub filename : Text
  pub mime_type : Text
  pub file : Text

pub record SessionTables : Type 0 where
  pub sessions : List SessionRow
  pub next_session : ℕ
  pub messages : List MessageRow
  pub next_message : ℕ
  pub attachments : List (ℕ × Attachment)

abbrev pub is_key : SessionKey → SessionKey → Bool
is_key key other =
    other.chat_id == key.chat_id && other.channel == key.channel && other.connector == key.connector

abbrev pub has_key : SessionKey → SessionRow → Bool
has_key key row = is_key key row.key

unfoldable pub find_session : SessionKey → SessionTables → Option SessionRow
find_session key tables = select_first (has_key key) tables.sessions

unfoldable pub new_session : ℕ → SessionKey → SessionTables → SessionRow
new_session now key tables = record { id = tables.next_session; key = key; created_at = now }

unfoldable pub get_or_create_session : ℕ → SessionKey → SessionTables → ℕ × SessionTables
unfolding find_session new_session
get_or_create_session now key tables = elim (find_session key tables) [
  | some row ↦ (row.id, tables)
  | none ↦ (
    tables.next_session,
    record tables {
      sessions = tables.sessions ++ new_session now key tables ∷ [];
      next_session = tables.next_session + 1;
    },
  )
]

unfoldable pub new_message : ℕ → ℕ → Text → Text → SessionTables → MessageRow
new_message now session_id role content tables = record {
  id = tables.next_message;
  session_id = session_id;
  role = role;
  content = content;
  created_at = now;
}

unfoldable pub add_message : ℕ → ℕ → Text → Text → SessionTables → ℕ × SessionTables
unfolding new_message
add_message now session_id role content tables = (
  tables.next_message,
  record tables {
    messages = tables.messages ++ new_message now session_id role content tables ∷ [];
    next_message = tables.next_message + 1;
  },
)

abbrev pub of_session : ℕ → MessageRow → Bool
of_session id row = row.session_id == id

-- ORDER BY id DESC LIMIT limit, and the reversal of what is found; the rows ascend by id.
unfoldable pub list_recent_messages : ℕ → ℕ → SessionTables → List (Text × Text)
list_recent_messages session_id limit tables =
    map (λ row. (row.role, row.content))
      (reverse (take limit (reverse (filter (of_session session_id) tables.messages))))

abbrev stripped : Attachment → Attachment
stripped a = record {
  filename = strip a.filename;
  mime_type = strip a.mime_type;
  file = strip a.file;
}

abbrev is_whole : Attachment → Bool
is_whole a = not (is_empty a.filename || is_empty a.mime_type || is_empty a.file)

-- Attachments that lack a field are left out.
pub add_message_attachments : ℕ → List Attachment → SessionTables → SessionTables
add_message_attachments message_id attachments tables = record tables {
  attachments =
      tables.attachments ++ map (λ a. (message_id, a)) (filter is_whole (map stripped attachments));
}

pub get_message_attachments : ℕ → SessionTables → List Attachment
get_message_attachments message_id tables =
    map (λ row. row.1) (filter (λ row. row.0 == message_id) tables.attachments)
