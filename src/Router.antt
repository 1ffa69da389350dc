-- ===== src/Router.antt =====
-- internal/router/router.go: the routes, with the middleware before each handler. hertz's trees of
-- routes are modelled by what they are for: a path is split at its slashes, and the parameter
-- `:user_id` stands for one segment that is not empty. The global middlewares only add headers and
-- log lines, and answer OPTIONS requests. What hertz makes of the target of a request, which it decodes and
-- normalises, is a parameter.
pub mod Reach
use Prim.Native.String.{String}
use nexo_im.Base.{
  ℕ, Text, codes, ◌=ₜ◌, is_empty, not, ◌==◌, leb, ◌||◌, ◌≡◌, Bool, true, false, ◌&&◌, Option, none,
  some, List, [], ◌∷◌, ◌++◌, map, if◌then◌else◌,
}

-- The methods of the handlers, by the handler that has them.
pub data Handler : Type 0 where
  health ws : Handler
  register login : Handler
  get_user_info get_user_info_by_id update_user_info get_users_info : Handler
  get_users_online_status : Handler
  create_group join_group quit_group get_group_info get_group_members : Handler
  send_message send_message_without_mark_read pull_messages get_max_seq : Handler
  get_conversation_list get_all_conversation_list get_conversation update_conversation : Handler
  mark_read get_max_read_seq get_unread_count : Handler

pub data Guard : Type 0 where
  open_to_all jwt_auth internal_auth internal_auth_as_user : Guard

pub data Segment : Type 0 where
  literal : Text → Segment
  parameter : Segment

pub record Route : Type 0 where
  pub method : Text
  pub pattern : List Segment
  pub guard : Guard
  pub handler : Handler

-- A byte before the first of the parts.
abbrev before : ℕ → List Text → List Text
before c [] = (c ∷ []) ∷ []
before c (p ∷ parts) = (c ∷ p) ∷ parts

-- The parts of a path between its slashes.
unfoldable pub split_slash : Text → List Text
split_slash [] = [] ∷ []
split_slash (c ∷ s) = let parts = split_slash s in if c == b'/' then [] ∷ parts else before c parts

abbrev segment_of : Text → Segment
segment_of [] = literal []
segment_of (c ∷ s) = if c == b':' then parameter else literal (c ∷ s)

abbrev get : String → Handler → Guard → Text → Route
get path handler guard prefix = record {
  method = codes "GET";
  pattern = map segment_of (split_slash (prefix ++ codes path));
  guard = guard;
  handler = handler;
}

abbrev post : String → Handler → Guard → Text → Route
post path handler guard prefix = record (get path handler guard prefix) { method = codes "POST" }

abbrev put : String → Handler → Guard → Text → Route
put path handler guard prefix = record (get path handler guard prefix) { method = codes "PUT" }

-- `root.Group(prefix, guard)` with what is registered in it
abbrev group : String → Guard → List (Guard → Text → Route) → List Route
group prefix guard = map (λ route. route guard (codes "/im" ++ codes prefix))

abbrev user_routes : List (Guard → Text → Route)
user_routes =
    get "/info" get_user_info
    ∷ (get "/profile/:user_id" get_user_info_by_id
        ∷ (put "/update" update_user_info
            ∷ (post "/batch_info" get_users_info
                ∷ (post "/get_users_online_status" get_users_online_status ∷ []))))

abbrev message_routes : List (Guard → Text → Route)
message_routes =
    post "/send" send_message ∷ (post "/send_without_mark_read" send_message_without_mark_read ∷ [])

abbrev list_routes : List (Guard → Text → Route)
list_routes =
    get "/list" get_conversation_list
    ∷ (post "/list" get_conversation_list
        ∷ (get "/all" get_all_conversation_list ∷ (post "/all" get_all_conversation_list ∷ [])))

-- The routes in the order in which they are registered.
unfoldable pub routes : List Route
unfolding split_slash
routes =
    group "" open_to_all (get "/health" health ∷ [])
    ++ (group "/auth" open_to_all (post "/register" register ∷ (post "/login" login ∷ []))
        ++ (group "/user" jwt_auth user_routes
            ++ (group "/group" jwt_auth (
                  post "/create" create_group
                  ∷ (post "/join" join_group
                      ∷ (post "/quit" quit_group
                          ∷ (get "/info" get_group_info
                              ∷ (get "/members" get_group_members ∷ [])))))
                ++ (group "/msg" jwt_auth (
                      message_routes
                      ++ (get "/pull" pull_messages ∷ (get "/max_seq" get_max_seq ∷ [])))
                    ++ (group "/conversation" jwt_auth (
                          list_routes
                          ++ (get "/info" get_conversation
                              ∷ (put "/update" update_conversation
                                  ∷ (post "/mark_read" mark_read
                                      ∷ (get "/max_read_seq" get_max_read_seq
                                          ∷ (get "/unread_count" get_unread_count ∷ []))))))
                        ++ (group "" open_to_all (get "/ws" ws ∷ [])
                            ++ (group "/internal" internal_auth
                                  (get "/health" health ∷ (post "/auth/register" register ∷ []))
                                ++ (group "/internal/user" internal_auth_as_user user_routes
                                    ++ (group "/internal/msg" internal_auth_as_user message_routes
                                        ++ group "/internal/conversation" internal_auth_as_user
                                            list_routes)))))))))

unfoldable pub matches : List Segment → List Text → Bool
matches [] [] = true
matches [] (p ∷ parts) = false
matches (s ∷ pattern) [] = false
matches (literal t ∷ pattern) (p ∷ parts) = t =ₜ p && matches pattern parts
matches (parameter ∷ pattern) (p ∷ parts) = not (is_empty p) && matches pattern parts

unfoldable pub find_route : List Route → Text → List Text → Option (Guard × Handler)
unfolding matches
find_route [] method parts = none
find_route (r ∷ rs) method parts =
    let rest = find_route rs method parts in
    if r.method =ₜ method && matches r.pattern parts then some (r.guard, r.handler) else rest

-- What a request with the method and the path meets; `none` is the answer 404.
unfoldable pub dispatch : Text → Text → Option (Guard × Handler)
unfolding find_route split_slash routes
dispatch method path = find_route routes method (split_slash path)

abbrev is_plain : ℕ → Bool
is_plain c =
    leb b'a' c && leb c b'z'
    || (leb b'A' c && leb c b'Z' || (leb b'0' c && leb c b'9' || (c == b'-' || c == b'_')))

-- Plain characters and slashes, no slash behind a slash or at the end; whether the last was a slash.
unfoldable pub clean_from : Bool → Text → Bool
clean_from after_slash [] = not after_slash
clean_from after_slash (c ∷ t) =
    if c == b'/' then not after_slash && clean_from true t else is_plain c && clean_from false t

-- A path that stands for itself: it begins with a slash, its segments are not empty and have plain
-- characters only, of which no dot, no percent sign and no question mark is one.
unfoldable pub is_clean : Text → Bool
unfolding clean_from
is_clean [] = false
is_clean (c ∷ t) = c == b'/' && clean_from true t

-- Neither white space nor control bytes, nor anything beyond ASCII, as in an encoded query
unfoldable pub is_visible : Text → Bool
is_visible [] = true
is_visible (c ∷ t) = leb 33 c && leb c 126 && is_visible t

-- The path that hertz finds in the target of a request. Such a path is left as it is, also before a
-- query.
pub record Uri : Type 0 where
  pub path : Text → Text
  pub path_lem :
      (t query : Text)
      → is_clean t ≡ true
      → is_visible query ≡ true
      → (path t ≡ t) × (path (t ++ (b'?' ∷ query)) ≡ t)

unfoldable pub dispatch_request : Uri → Text → Text → Option (Guard × Handler)
dispatch_request uri method target = dispatch method (uri.path target)
