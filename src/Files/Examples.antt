-- ===== src/Files/Examples.antt =====
-- A list of players, with the last record not ended by a newline.
use dst_server.Base.{◌≡◌, refl, true, false, [], ◌∷◌, Bytes, from_utf8}
use dst_server.Files.Permissions.{edit_permission, permission_userid, first_part, split_inclusive}
use dst_server.Files.Permissions.Users.{
  users_of, with_user, without_user, IsUser, edit_permission-adds, edit_permission-removes,
}

-- "KU_a", "KU_b" and "KU_c".
abbrev alice : Bytes
alice = 75 ∷ 85 ∷ 95 ∷ 97 ∷ []

abbrev bob : Bytes
bob = 75 ∷ 85 ∷ 95 ∷ 98 ∷ []

abbrev carol : Bytes
carol = 75 ∷ 85 ∷ 95 ∷ 99 ∷ []

abbrev players : Bytes
players = 75 ∷ 85 ∷ 95 ∷ 97 ∷ 13 ∷ 10 ∷ 10 ∷ 75 ∷ 85 ∷ 95 ∷ 98 ∷ []

carol-IsUser : IsUser carol
unfolding permission_userid first_part from_utf8
carol-IsUser = refl

added_eq :
    edit_permission players carol false
    ≡ 75 ∷ 85 ∷ 95 ∷ 97 ∷ 13 ∷ 10 ∷ 10 ∷ 75 ∷ 85 ∷ 95 ∷ 98 ∷ 10 ∷ 75 ∷ 85 ∷ 95 ∷ 99 ∷ 10 ∷ []
unfolding edit_permission split_inclusive permission_userid from_utf8
added_eq = refl

edit_permission-adds_example :
    users_of (edit_permission players carol false) ≡ with_user carol (users_of players)
edit_permission-adds_example = edit_permission-adds players carol carol-IsUser

edit_permission-removes_example :
    users_of (edit_permission players bob true) ≡ without_user bob (users_of players)
edit_permission-removes_example = edit_permission-removes players bob
