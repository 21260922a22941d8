-- ===== src/Tests/ScriptRuns.antt =====
-- The theorems on the scripts, applied to the small database and to one password.
use kan_pad.Base.{◌≤◌, ◌≡◌, ◌↔◌, ◌⊎◌, refl, true, false, not, any, length, [], none, some}
use kan_pad.Base.Text.{codes, text_eq, trim, is_space}
use kan_pad.Auth.Service.{AuthEnv, normalize, login, info_of, session_of}
use kan_pad.Auth.Session.{Session, Value}
use kan_pad.Scripts.CreateAdmin.{
  CliHost, created, is_letter, is_digit, is_special, first_is, is_strong, is_email, after_local,
  is_domain, all_plain, dot_inside, ahead, add_admin, check_and_add, main_internal,
}
use kan_pad.Scripts.CreateAdmin.Passwords.{is_allowed, is_strong_iff}
use kan_pad.Scripts.CreateAdmin.Single.{IsSingle, main_internal-IsSingle, check_and_add-login}
use kan_pad.Store.Action.{ok}
use kan_pad.Store.Entities.{User, Db}
use kan_pad.Tests.World.{engine, engine-IsLawful, world}

is_strong_iff_example : (is_strong (codes "abcdefg!") ≡ true) ↔ (
    (any is_letter (codes "abcdefg!") ≡ true)
    × ((any is_digit (codes "abcdefg!") ≡ true) ⊎ (first_is is_special (codes "abcdefg!") ≡ true))
    × (any (λ c. not (is_allowed c)) (codes "abcdefg!") ≡ false)
    × (8 ≤ length (codes "abcdefg!")))
is_strong_iff_example = is_strong_iff (codes "abcdefg!")

abbrev terminal : CliHost
terminal = record {
  db_host = some (codes "localhost");
  db_port = none;
  prompt_email = codes "a@b.c";
  prompt_password = codes "abcdefg1";
  hash = λ salt rounds password. password;
  connects = true;
}

main_internal-IsSingle_example : IsSingle engine world (main_internal engine terminal 0 [] world)
main_internal-IsSingle_example = main_internal-IsSingle engine engine-IsLawful terminal 0 [] world

abbrev server : AuthEnv
server = record {
  hash = λ salt rounds password. password;
  compare = λ password hash. text_eq password hash;
  to_lower_case = λ text. text;
  registration_enabled = none;
}

abbrev nobody : Session
nobody = record { user_id = Value.undefined; email = Value.undefined; role = Value.undefined }

abbrev admin : User
admin = record { id = 4; email = codes "a@b.c"; password = codes "abcdefg1"; role = codes "admin" }

abbrev world_with_admin : Db
world_with_admin = (check_and_add engine terminal 0 (codes "a@b.c") (codes "abcdefg1") world).1

accepted : text_eq (codes "abcdefg1") (codes "abcdefg1") ≡ true
unfolding text_eq
accepted = refl

normal : normalize engine server (codes "a@b.c") ≡ codes "a@b.c"
unfolding normalize trim
normal = refl

fresh : any (λ u. text_eq (codes "a@b.c") (User.email u)) world.users ≡ false
unfolding text_eq
fresh = refl

added :
    check_and_add engine terminal 0 (codes "a@b.c") (codes "abcdefg1") world
    ≡ (created, world_with_admin)
unfolding check_and_add add_admin is_email after_local is_domain all_plain dot_inside is_space
    is_strong ahead text_eq
added = refl

check_and_add-login_example :
    (u : User) × (u.role ≡ codes "admin")
    × (u.email ≡ codes "a@b.c")
    × (login engine server
          (record { email = codes "a@b.c"; password = codes "abcdefg1" })
          nobody
          world_with_admin
        ≡ (ok (info_of u), session_of u, world_with_admin))
check_and_add-login_example =
    check_and_add-login engine engine-IsLawful terminal server 0 (codes "a@b.c") (codes "abcdefg1")
      world world_with_admin accepted normal fresh added nobody
