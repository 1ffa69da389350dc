-- ===== src/Router/Reach.antt =====
-- What of internal/router/router.go the calls of sdk reach.
use nexo_im.Base.{
  true, inr, inl, codes, ◌↔◌, Bool-cases, ◌⊎◌, ◌==◌, ◌++◌, Text, Lacks, ◌=ₜ◌, is_empty, false, some,
  none, Option, List, [], ◌∷◌, ◌≡◌, refl, arith,
}
use nexo_im.Sdk.Endpoints.{Endpoint, method_of, path_of}
use nexo_im.Router.{
  Handler, Guard, open_to_all, jwt_auth, internal_auth, internal_auth_as_user, dispatch,
  split_slash, Uri, is_clean, is_visible, dispatch_request,
}

-- The handler that the name of each call of the SDK promises.
abbrev pub served_by : Endpoint → Handler
served_by Endpoint.register = Handler.register
served_by Endpoint.internal_register = Handler.register
served_by Endpoint.login = Handler.login
served_by Endpoint.user_info = Handler.get_user_info
served_by Endpoint.internal_user_info = Handler.get_user_info
served_by (Endpoint.profile u) = Handler.get_user_info_by_id
served_by (Endpoint.internal_profile u) = Handler.get_user_info_by_id
served_by Endpoint.update_user = Handler.update_user_info
served_by Endpoint.internal_update_user = Handler.update_user_info
served_by Endpoint.batch_info = Handler.get_users_info
served_by Endpoint.internal_batch_info = Handler.get_users_info
served_by Endpoint.online_status = Handler.get_users_online_status
served_by Endpoint.internal_online_status = Handler.get_users_online_status
served_by Endpoint.create_group = Handler.create_group
served_by Endpoint.join_group = Handler.join_group
served_by Endpoint.quit_group = Handler.quit_group
served_by Endpoint.group_info = Handler.get_group_info
served_by Endpoint.group_members = Handler.get_group_members
served_by Endpoint.send = Handler.send_message
served_by Endpoint.internal_send = Handler.send_message
served_by Endpoint.send_without_mark_read = Handler.send_message_without_mark_read
served_by Endpoint.internal_send_without_mark_read = Handler.send_message_without_mark_read
served_by Endpoint.pull = Handler.pull_messages
served_by Endpoint.max_seq = Handler.get_max_seq
served_by Endpoint.all_conversations = Handler.get_all_conversation_list
served_by Endpoint.internal_all_conversations = Handler.get_all_conversation_list
served_by Endpoint.conversation_list = Handler.get_conversation_list
served_by Endpoint.internal_conversation_list = Handler.get_conversation_list
served_by Endpoint.conversation_info = Handler.get_conversation
served_by Endpoint.update_conversation = Handler.update_conversation
served_by Endpoint.mark_read = Handler.mark_read
served_by Endpoint.max_read_seq = Handler.get_max_read_seq
served_by Endpoint.unread_count = Handler.get_unread_count

-- Registering and logging in are open to all, internal calls are signed, all others carry a token.
abbrev pub guarded_by : Endpoint → Guard
guarded_by Endpoint.register = open_to_all
guarded_by Endpoint.login = open_to_all
guarded_by Endpoint.internal_register = internal_auth
guarded_by Endpoint.internal_user_info = internal_auth_as_user
guarded_by (Endpoint.internal_profile u) = internal_auth_as_user
guarded_by Endpoint.internal_update_user = internal_auth_as_user
guarded_by Endpoint.internal_batch_info = internal_auth_as_user
guarded_by Endpoint.internal_online_status = internal_auth_as_user
guarded_by Endpoint.internal_send = internal_auth_as_user
guarded_by Endpoint.internal_send_without_mark_read = internal_auth_as_user
guarded_by Endpoint.internal_all_conversations = internal_auth_as_user
guarded_by Endpoint.internal_conversation_list = internal_auth_as_user
guarded_by _ = jwt_auth

-- A user id that makes one segment of a path.
abbrev IsSegment : Text → Type 0
IsSegment u = (is_empty u ≡ false) × Lacks b'/' u

abbrev pub HasSegment : Endpoint → Type 0
HasSegment (Endpoint.profile u) = IsSegment u
HasSegment (Endpoint.internal_profile u) = IsSegment u
HasSegment _ = Unit

split_slash-Lacks : (s : Text) → Lacks b'/' s → split_slash s ≡ s ∷ []
unfolding split_slash
split_slash-Lacks [] h = refl
split_slash-Lacks (c ∷ s) h = ground (arith, split_slash-Lacks s h.1)

-- Two parts at least.
abbrev Splits : Text → Type 0
Splits s = (p q : Text) × (rest : List Text) × (split_slash s ≡ p ∷ (q ∷ rest))

-- There is a first part.
split_slash-cons : (s : Text) → (p : Text) × (rest : List Text) × (split_slash s ≡ p ∷ rest)
unfolding split_slash
split_slash-cons [] = ([], [], refl)
split_slash-cons (c ∷ s) =
    let (p, rest, e) = split_slash-cons s in
    elim (Bool-cases (c == b'/')) [
      | inl slash ↦ ([], p ∷ rest, ground arith)
      | inr other ↦ (c ∷ p, rest, ground arith)
    ]

split_slash-cases : (s : Text) → Lacks b'/' s ⊎ Splits s
unfolding split_slash
split_slash-cases [] = inl tt
split_slash-cases (c ∷ s) =
    let (p, rest, e) = split_slash-cons s in
    elim (Bool-cases (c == b'/')) [
      | inl slash ↦ inr ([], p, rest, ground arith)
      | inr other ↦ elim (split_slash-cases s) [
        | inl h ↦ inl (ground arith, h)
        | inr (p', q, rest', e') ↦ inr (c ∷ p', q, rest', ground arith)
      ]
    ]

unrouted :
    (u : Text)
    → Splits u
    → (dispatch (codes "GET") (codes "/im/user/profile/" ++ u) ≡ none)
      × (dispatch (codes "GET") (codes "/im/internal/user/profile/" ++ u) ≡ none)
unfolding dispatch ◌=ₜ◌
unrouted u (p, q, rest, s) = (rw s (ground arith), rw s (ground arith))

path-Endpoint_iff :
    (e : Endpoint)
    → HasSegment e ↔ (dispatch (method_of e) (path_of e) ≡ some (guarded_by e, served_by e))
unfolding dispatch method_of path_of ◌=ₜ◌
path-Endpoint_iff (Endpoint.profile u) = (
  λ h. ground (arith, split_slash-Lacks u h.1),
  λ d. elim (split_slash-cases u) [
    | inl h ↦ (ground (arith, split_slash-Lacks u h), h)
    | inr s ↦ absurd (ground (arith, unrouted u s))
  ],
)
path-Endpoint_iff (Endpoint.internal_profile u) = (
  λ h. ground (arith, split_slash-Lacks u h.1),
  λ d. elim (split_slash-cases u) [
    | inl h ↦ (ground (arith, split_slash-Lacks u h), h)
    | inr s ↦ absurd (ground (arith, unrouted u s))
  ],
)
path-Endpoint_iff Endpoint.register = (λ h. refl, λ d. tt)
path-Endpoint_iff _ = (λ h. refl, λ d. tt)

-- The target of a call, with its query, if it has one.
abbrev pub target : Endpoint → Option Text → Text
target e none = path_of e
target e (some query) = path_of e ++ (b'?' ∷ query)

abbrev pub query_of : Option Text → Text
query_of none = []
query_of (some query) = query

-- A call of the SDK whose path has plain characters in its segments, none of which is empty, meets
-- the handler of its name behind the middleware of its group, whatever visible ASCII characters its
-- query has, exactly where a user id in its path has no slash.
pub dispatch-Endpoint_iff :
    (uri : Uri) (e : Endpoint) (query : Option Text)
    → is_clean (path_of e) ≡ true
    → is_visible (query_of query) ≡ true
    → HasSegment e
      ↔ (dispatch_request uri (method_of e) (target e query) ≡ some (guarded_by e, served_by e))
unfolding dispatch_request
dispatch-Endpoint_iff uri e none clean visible =
    rw (uri.path_lem (path_of e) [] clean visible).0 (path-Endpoint_iff e)
dispatch-Endpoint_iff uri e (some query) clean visible =
    rw (uri.path_lem (path_of e) query clean visible).1 (path-Endpoint_iff e)
