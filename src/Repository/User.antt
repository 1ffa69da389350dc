-- ===== src/Repository/User.antt =====
-- internal/repository/user_repo.go
use nexo_im.Base
use nexo_im.Base.{
  ℤ, List, select, false, ◌||◌, Text, ◌=ₜ◌, Bool, Option, none, some, is_some, [], ◌∷◌, ◌++◌,
  if◌then◌else◌, find,
}
use nexo_im.Errors.{no_record, refused, Result, ok, err}
use nexo_im.Entity.User.{User}
use nexo_im.Backend.{Sql, Backend}
use nexo_im.Backend.Monad.{Action, pure, fail, ◌>>=◌, ◌>>◌, attempt, gets}
use nexo_im.Repository.Statement.{found}

-- WHERE id = ?
abbrev pub of_id : Text → User → Bool
of_id i u = u.id =ₜ i

unfoldable pub first_user : Text → Sql User
first_user i d = (found (find (of_id i) d.users), d)

-- SELECT count(*) … > 0
unfoldable pub count_user : Text → Sql Bool
count_user i d = (ok (is_some (find (of_id i) d.users)), d)

-- INSERT; `id` is the primary key.
unfoldable pub insert_user : User → Sql (Unit {0})
insert_user u d =
    if is_some (find (of_id u.id) d.users)
    then (err refused, d)
    else (ok tt, record d { users = d.users ++ u ∷ [] })

-- WHERE id IN ?
unfoldable pub id_in : List Text → User → Bool
id_in [] u = false
id_in (i ∷ is) u = of_id i u || id_in is u

-- The columns that UpdateUserInfo may name.
pub record UserUpdates : Type 0 where
  pub nickname : Option Text
  pub avatar : Option Text
  pub extra : Option Text

abbrev or_old : Option Text → Text → Text
or_old none old = old
or_old (some new) old = new

abbrev or_old_extra : Option Text → Option Text → Option Text
or_old_extra none old = old
or_old_extra (some new) old = some new

-- UPDATE; gorm sets the time too.
unfoldable pub update_user : Text → UserUpdates → ℤ → Sql (Unit {0})
update_user i updates now d = (
  ok tt,
  record d {
    users =
        Base.update (of_id i)
          (λ u. record u {
            nickname = or_old updates.nickname u.nickname;
            avatar = or_old updates.avatar u.avatar;
            extra = or_old_extra updates.extra u.extra;
            updated_at = now;
          })
          d.users;
  },
)

module _ (b : Backend) where
  open b use {World, exec, clock}

  unfoldable pub create : User → Action World User
  create user = do
    now ← gets clock
    let created = record user { created_at = now; updated_at = now }
    exec Unit (insert_user created)
    pure created

  abbrev optional : Result User → Action World (Option User)
  optional (ok u) = pure (some u)
  optional (err no_record) = pure none
  optional (err f) = fail f

  unfoldable pub get_by_id : Text → Action World (Option User)
  get_by_id id = do u ← attempt (exec User (first_user id)); optional u

  unfoldable pub exists : Text → Action World Bool
  exists id = exec Bool (count_user id)

  unfoldable pub get_by_ids : List Text → Action World (List User)
  get_by_ids ids = exec (List User) (λ d. (ok (select (id_in ids) d.users), d))

  unfoldable pub update : Text → UserUpdates → Action World (Unit {0})
  update id updates = do now ← gets clock; exec Unit (update_user id updates now)

  -- The row is required: gorm's "not found" is the caller's.
  unfoldable pub get_by_id_with_tx : Text → Action World User
  get_by_id_with_tx id = exec User (first_user id)
