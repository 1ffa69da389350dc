-- ===== src/Tests/Gateway.antt =====
-- Runs of the connection counters and of the push loop.
use nexo_im.Base.{
  if◌then◌else◌, =ₜ→ne, upsert, ◌≢◌, select, pos, codes, ◌=ₜ◌, ◌≡◌, refl, true, false, some, [],
  ◌∷◌, find,
}
use nexo_im.Gateway.UserMap.{Client, UserMap, register, get_all, has_connection}
use nexo_im.Gateway.UserMap.Lookup.{clients_in}
use nexo_im.Gateway.UserMap.Counts.{count_conn}
use nexo_im.Gateway.Hub.{Hub, handle, registers, unregisters, register_client, event_loop}
use nexo_im.Gateway.Hub.Consistent.{IsConsistent, handle-IsConsistent, early_unregister}
use nexo_im.Gateway.Push.{PushTask, contains, process_push_task, push_to_user}
use nexo_im.Gateway.Push.Targets.{is_for, process_push_task-once}
use nexo_im.Tests.Data.{ann, bob, message}

abbrev phone : Client
phone = record { user_id = bob; platform_id = pos 1; conn_id = codes "c1" }

abbrev idle : Hub
idle = record {
  user_map = record { users = []; rdb = true };
  online_user_num = pos 0;
  online_conn_num = pos 0;
  max_conn_num = pos 10;
}

idle-IsConsistent : IsConsistent idle
idle-IsConsistent = record { clean = tt; users = refl; conns = refl }

phone_once :
    count_conn (codes "c1") (clients_in bob (register_client idle phone).user_map.users) ≡ 1
unfolding register_client register ◌=ₜ◌ find select upsert
phone_once = refl

handle-IsConsistent_example :
    IsConsistent (handle (handle idle (registers phone)) (unregisters phone))
unfolding handle
handle-IsConsistent_example =
    handle-IsConsistent (handle idle (registers phone)) (unregisters phone) phone_once
      (handle-IsConsistent idle (registers phone) tt idle-IsConsistent)

early_unregister_example :
    let g = event_loop idle (unregisters phone ∷ registers phone ∷ []) in
    (get_all g.user_map bob ≡ some (phone ∷ []))
    × (has_connection g.user_map bob ≡ true)
    × (g.online_conn_num ≡ pos 0)
unfolding find
early_unregister_example = early_unregister idle phone refl

abbrev connected : UserMap
connected = record { users = record { user_id = bob; clients = phone ∷ [] } ∷ []; rdb = false }

-- Bob is named twice.
abbrev task : PushTask
task = record {
  msg = some (message (pos 1) (codes "m1"));
  target_ids = ann ∷ bob ∷ bob ∷ [];
  exclude_id = [];
}

bob_named : bob ≢ []
unfolding ◌=ₜ◌
bob_named = =ₜ→ne bob [] refl

process_push_task-once_example :
    select (is_for bob) (process_push_task connected (λ u. false) task) ≡ (
      if contains bob task.target_ids
      then push_to_user connected (λ u. false) [] (message (pos 1) (codes "m1")) bob
      else [])
process_push_task-once_example =
    process_push_task-once connected (λ u. false) task (message (pos 1) (codes "m1")) bob bob_named
      refl
