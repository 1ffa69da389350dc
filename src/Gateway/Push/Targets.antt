-- ===== src/Gateway/Push/Targets.antt =====
-- To whom a push task of internal/gateway/ws_server.go goes, and how often.
use nexo_im.Base.{
  Text, ◌=ₜ◌, =ₜ_refl, =ₜ→eq, ◌≡◌, ◌≢◌, refl, not, Bool, ◌&&◌, List, [], ◌∷◌, ◌++◌, if◌then◌else◌,
  map, select, arith, ap, Option-cases, some, inl, inr,
}
use nexo_im.Entity.Message.{Message}
use nexo_im.Gateway.UserMap.{Client, UserMap, get_all}
use nexo_im.Gateway.Push.{
  PushTask, process_push_task, Delivery, to_client, to_app, contains, push_to_user, push_to_users,
}

-- Whether a delivery is made on account of a user.
abbrev pub is_for : Text → Delivery → Bool
is_for u (to_client v c msg) = v =ₜ u
is_for u (to_app v msg) = v =ₜ u

pub select-append :
    (p : Delivery → Bool) (xs ys : List Delivery) → select p (xs ++ ys) ≡ select p xs ++ select p ys
unfolding select
select-append p [] ys = refl
select-append p (x ∷ xs) ys = ground (arith, select-append p xs ys)

clients_same :
    (u v : Text) (msg : Message) (cs : List Client)
    → select (is_for v) (map (λ c. to_client u c msg) cs)
      ≡ (if u =ₜ v then map (λ c. to_client u c msg) cs else [])
unfolding select
clients_same u v msg [] = ground arith
clients_same u v msg (c ∷ cs) = ground (arith, clients_same u v msg cs)

append-nil : (xs : List Delivery) → xs ++ [] ≡ xs
append-nil [] = refl
append-nil (x ∷ xs) = ap (λ l. x ∷ l) (append-nil xs)

module _ (m : UserMap) (key_exists : Text → Bool) (exclude_id : Text) (msg : Message) where
  user_same :
      (u v : Text)
      → select (is_for v) (push_to_user m key_exists exclude_id msg u)
        ≡ (if u =ₜ v then push_to_user m key_exists exclude_id msg u else [])
  unfolding push_to_user select
  user_same u v = elim (Option-cases (get_all m u)) [
    | inl absent ↦ ground arith
    | inr (cs, present) ↦
        let kept = select (λ c. not (not (exclude_id =ₜ []) && (c.conn_id =ₜ exclude_id))) cs in
        ground (
          arith,
          clients_same u v msg kept,
          select-append (is_for v) (map (λ c. to_client u c msg) kept) (to_app u msg ∷ []),
          append-nil (map (λ c. to_client u c msg) kept),
        )
  ]

  pub users_once :
      (v : Text) (seen us : List Text)
      → v ≢ []
      → select (is_for v) (push_to_users m key_exists exclude_id msg seen us) ≡ (
          if contains v us && not (contains v seen)
          then push_to_user m key_exists exclude_id msg v
          else [])
  unfolding push_to_users contains select
  users_once v seen [] n = ground arith
  users_once v seen (u ∷ us) n = ground (
    arith,
    users_once v seen us n,
    users_once v (u ∷ seen) us n,
    select-append (is_for v) (push_to_user m key_exists exclude_id msg u)
        (push_to_users m key_exists exclude_id msg (u ∷ seen) us),
    user_same u v,
    =ₜ→eq u v,
    =ₜ→eq u [],
    =ₜ_refl v,
    append-nil (push_to_user m key_exists exclude_id msg u),
  )

-- A task with a message reaches a user with a non-empty id exactly as one run of the loop's body
-- does if the task names the user, however often, and not at all if it does not.
pub process_push_task-once :
    (m : UserMap) (key_exists : Text → Bool) (task : PushTask) (msg : Message) (v : Text)
    → v ≢ []
    → task.msg ≡ some msg
    → select (is_for v) (process_push_task m key_exists task)
      ≡ (if contains v task.target_ids then push_to_user m key_exists task.exclude_id msg v else [])
unfolding process_push_task contains
process_push_task-once m key_exists task msg v n h =
    ground (arith, users_once m key_exists task.exclude_id msg v [] task.target_ids n)
