-- ===== src/Files/Permissions.antt =====
-- The permission lists of crates/dst-server/src/files.rs: one record a line, a user's identity first.
-- An identity is its bytes.
pub mod Lines
pub mod Users
use dst_server.Base.{
  ℕ, Bool, true, false, not, ◌&&◌, ◌||◌, List, [], ◌∷◌, ◌++◌, Option, none, some, Bytes, same_bytes,
  from_utf8, is_empty, ◌==◌, if◌then◌else◌,
}

abbrev push_head : ℕ → List Bytes → List Bytes
push_head b [] = (b ∷ []) ∷ []
push_head b (line ∷ lines) = (b ∷ line) ∷ lines

-- `split(|byte| *byte == b'\n')`.
unfoldable pub split : Bytes → List Bytes
split [] = [] ∷ []
split (b ∷ bs) = let rest = split bs in if b == 10 then [] ∷ rest else push_head b rest

-- `split_inclusive(|byte| *byte == b'\n')`.
unfoldable pub split_inclusive : Bytes → List Bytes
split_inclusive [] = []
split_inclusive (b ∷ bs) =
    let rest = split_inclusive bs in if b == 10 then (b ∷ []) ∷ rest else push_head b rest

-- A line feed, a carriage return, or the byte 0xBA.
abbrev pub is_separator : ℕ → Bool
is_separator b = b == 10 || (b == 13 || b == 186)

-- The first part of a record.
unfoldable pub first_part : Bytes → Bytes
first_part [] = []
first_part (b ∷ bs) = let rest = first_part bs in if is_separator b then [] else b ∷ rest

abbrev is_utf8 : Bytes → Bool
is_utf8 bytes = elim (from_utf8 bytes) [ none ↦ false | some cs ↦ true ]

unfoldable pub permission_userid : Bytes → Option Bytes
unfolding first_part
permission_userid bytes =
    let userid = first_part bytes in
    if is_utf8 userid && not (is_empty userid) then some userid else none

abbrev keep_some : Option Bytes → List Bytes → List Bytes
keep_some none users = users
keep_some (some u) users = u ∷ users

unfoldable pub users_in : List Bytes → List Bytes
users_in [] = []
users_in (record_of ∷ rest) = keep_some (permission_userid record_of) (users_in rest)

unfoldable pub permission_users : Bytes → List Bytes
permission_users source = users_in (split source)

-- `permission_userid(record) == Some(userid)`.
abbrev pub is_of : Bytes → Bytes → Bool
is_of userid bytes = elim (permission_userid bytes) [ none ↦ false | some u ↦ same_bytes u userid ]

-- The loop over the records, and whether one was of the user.
unfoldable pub edit_records : List Bytes → Bytes → Bool → Bytes × Bool
edit_records [] userid remove = ([], false)
edit_records (r ∷ rs) userid remove =
    let (output, found) = edit_records rs userid remove in
    if is_of userid r then (if remove then output else r ++ output, true) else (r ++ output, found)

abbrev ends_line : Bytes → Bool
ends_line [] = false
ends_line (b ∷ []) = b == 10
ends_line (b ∷ c ∷ bs) = ends_line (c ∷ bs)

unfoldable pub edit_permission : Bytes → Bytes → Bool → Bytes
unfolding edit_records
edit_permission source userid remove =
    let (output, found) = edit_records (split_inclusive source) userid remove in
    if not remove && not found
    then (if not (is_empty output) && not (ends_line output) then output ++ (10 ∷ []) else output)
      ++ (userid ++ (10 ∷ []))
    else output
