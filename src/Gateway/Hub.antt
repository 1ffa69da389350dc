-- ===== src/Gateway/Hub.antt =====
-- internal/gateway/ws_server.go: the counters of the server, and the event loop that registers and
-- unregisters clients.
pub mod Consistent
pub mod Refines
use nexo_im.Base.{
  ℤ, pos, ◌+ℤ◌, ◌-ℤ◌, leb_ℤ, Text, Bool, true, false, Option, none, some, is_some, List, [], ◌∷◌,
  if◌then◌else◌, not, map, ltb, length,
}
use nexo_im.Gateway.UserMap.{Client, UserMap, register, unregister, get_all}

pub record Hub : Type 0 where
  pub user_map : UserMap
  pub online_user_num : ℤ
  pub online_conn_num : ℤ
  pub max_conn_num : ℤ

unfoldable pub register_client : Hub → Client → Hub
register_client h client = record h {
  user_map = (register h.user_map client).0;
  online_user_num =
      if is_some (get_all h.user_map client.user_id)
      then h.online_user_num
      else h.online_user_num +ℤ pos 1;
  online_conn_num = h.online_conn_num +ℤ pos 1;
}

unfoldable pub unregister_client : Hub → Client → Hub
unregister_client h client =
    let done = unregister h.user_map client in
    record h {
      user_map = done.0;
      online_conn_num = h.online_conn_num -ℤ pos 1;
      online_user_num = if done.1 then h.online_user_num -ℤ pos 1 else h.online_user_num;
    }

-- What the event loop takes from its two channels. `select` may take either when both are ready.
pub data Event : Type 0 where
  registers unregisters : Client → Event

unfoldable pub handle : Hub → Event → Hub
unfolding register_client unregister_client
handle h (registers c) = register_client h c
handle h (unregisters c) = unregister_client h c

unfoldable pub event_loop : Hub → List Event → Hub
event_loop h [] = h
event_loop h (e ∷ es) = event_loop (handle h e) es
