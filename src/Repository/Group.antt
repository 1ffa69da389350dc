-- ===== src/Repository/Group.antt =====
-- internal/repository/group_repo.go
use nexo_im.Base.{
  ℤ, pos, eqb_ℤ, Text, ◌=ₜ◌, Bool, ◌&&◌, List, [], ◌∷◌, ◌++◌, if◌then◌else◌, map, find, select,
  update, upsert, length, is_some, ltb,
}
use nexo_im.Errors.{Result, ok, err, refused}
use nexo_im.Entity.Group.{group_status_dismissed, Group, group_member_status_normal}
use nexo_im.Entity.GroupMember.{GroupMember}
use nexo_im.Backend.{Sql, Backend}
use nexo_im.Backend.Monad.{Action, pure, ◌>>=◌, ◌>>◌, attempt, gets}
use nexo_im.Repository.Statement.{found, redis_key_group_members, del}

-- WHERE id = ?
abbrev pub of_id : Text → Group → Bool
of_id i g = g.id =ₜ i

-- WHERE group_id = ? AND user_id = ?
abbrev pub of_member : Text → Text → GroupMember → Bool
of_member g u m = m.group_id =ₜ g && m.user_id =ₜ u

-- WHERE group_id = ? AND status = 0
abbrev pub active_in : Text → GroupMember → Bool
active_in g m = m.group_id =ₜ g && eqb_ℤ m.status group_member_status_normal

unfoldable pub first_group : Text → Sql Group
first_group i d = (found (find (of_id i) d.groups), d)

-- INSERT; `id` is the primary key.
unfoldable pub insert_group : Group → Sql (Unit {0})
insert_group g d =
    if is_some (find (of_id g.id) d.groups)
    then (err refused, d)
    else (ok tt, record d { groups = d.groups ++ g ∷ [] })

unfoldable pub first_member : Text → Text → Sql GroupMember
first_member g u d = (found (find (of_member g u) d.members), d)

-- What ON DUPLICATE KEY UPDATE sets in the row of a member who comes back.
abbrev pub rejoined : GroupMember → ℤ → GroupMember → GroupMember
rejoined m now r = record r {
  status = group_member_status_normal;
  joined_at = m.joined_at;
  join_seq = m.join_seq;
  role_level = m.role_level;
  inviter_user_id = m.inviter_user_id;
  updated_at = now;
}

unfoldable pub upsert_member : GroupMember → ℤ → Sql (Unit {0})
upsert_member m now d = (
  ok tt,
  record d {
    members =
        upsert (of_member m.group_id m.user_id) (rejoined m now) (record m { updated_at = now })
          d.members;
  },
)

unfoldable pub set_member_status : Text → Text → ℤ → ℤ → Sql (Unit {0})
set_member_status g u status now d = (
  ok tt,
  record d {
    members =
        update (of_member g u) (λ r. record r { status = status; updated_at = now }) d.members;
  },
)

unfoldable pub select_active : Text → Sql (List GroupMember)
select_active g d = (ok (select (active_in g) d.members), d)

-- UPDATE … WHERE id = ?, with the columns of the map that is given; gorm sets the time too.
unfoldable pub update_group : Text → (Group → Group) → ℤ → Sql (Unit {0})
update_group i columns now d = (
  ok tt,
  record d { groups = update (of_id i) (λ g. record (columns g) { updated_at = now }) d.groups },
)

-- JOIN group_members … WHERE user_id = ? AND status = 0: a group for each row that joins it.
unfoldable pub joined_groups : Text → List GroupMember → Group → List Group
joined_groups u [] g = []
joined_groups u (m ∷ ms) g =
    let rest = joined_groups u ms g in
    if m.group_id =ₜ g.id && (m.user_id =ₜ u && eqb_ℤ m.status group_member_status_normal)
    then g ∷ rest
    else rest

unfoldable pub groups_of : Text → List GroupMember → List Group → List Group
groups_of u ms [] = []
groups_of u ms (g ∷ gs) = joined_groups u ms g ++ groups_of u ms gs

module _ (b : Backend) where
  open b use {World, exec, command, clock, key_prefix}

  unfoldable pub get_by_id : Text → Action World Group
  get_by_id id = exec Group (first_group id)

  -- The failure of a DEL is ignored.
  invalidate_member_cache : Text → Action World (Result (Unit {0}))
  invalidate_member_cache group_id =
      attempt (command Unit (del (redis_key_group_members key_prefix group_id)))

  unfoldable pub add_member : GroupMember → Action World (Unit {0})
  unfolding invalidate_member_cache
  add_member member = do
    now ← gets clock
    exec Unit (upsert_member member now)
    invalidate_member_cache member.group_id
    pure tt

  -- `GetMember` and `GetMemberWithTx`
  unfoldable pub get_member : Text → Text → Action World GroupMember
  get_member group_id user_id = exec GroupMember (first_member group_id user_id)

  unfoldable pub get_active_members : Text → Action World (List GroupMember)
  get_active_members group_id = exec (List GroupMember) (select_active group_id)

  unfoldable pub get_active_member_user_ids : Text → Action World (List Text)
  get_active_member_user_ids group_id = do
    members ← exec (List GroupMember) (select_active group_id)
    pure (map (λ m. m.user_id) members)

  -- gorm sets updated_at too.
  unfoldable pub update_member_status : Text → Text → ℤ → Action World (Unit {0})
  unfolding invalidate_member_cache
  update_member_status group_id user_id status = do
    now ← gets clock
    exec Unit (set_member_status group_id user_id status now)
    invalidate_member_cache group_id
    pure tt

  unfoldable pub get_member_count : Text → Action World ℤ
  get_member_count group_id = do
    members ← exec (List GroupMember) (select_active group_id)
    pure (pos (length members))

  unfoldable pub is_active_member : Text → Text → Action World Bool
  is_active_member group_id user_id = do
    members ← exec (List GroupMember) (select_active group_id)
    pure (ltb 0 (length (select (of_member group_id user_id) members)))

  unfoldable pub update_info : Text → (Group → Group) → Action World (Unit {0})
  update_info id columns = do now ← gets clock; exec Unit (update_group id columns now)

  unfoldable pub dismiss : Text → Action World (Unit {0})
  dismiss id = update_info id (λ g. record g { status = group_status_dismissed })

  unfoldable pub get_user_groups : Text → Action World (List Group)
  get_user_groups user_id = exec (List Group) (λ d. (ok (groups_of user_id d.members d.groups), d))
