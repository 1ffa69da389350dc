-- ===== src/Tests/Data.antt =====
-- The users, groups, messages and tables that the concrete runs share.
use nexo_im.Base.{ℤ, pos, Text, codes, none, some, [], ◌∷◌}
use nexo_im.Entity.User.{User}
use nexo_im.Entity.Group.{Group}
use nexo_im.Entity.GroupMember.{GroupMember}
use nexo_im.Entity.Message.{Message}
use nexo_im.Entity.Message.Content.{MessageContent}
use nexo_im.Entity.Seq.{SeqConversation, SeqUser}
use nexo_im.Backend.{Db}
use nexo_im.Backend.Memory.{no_rows}
use nexo_im.Repository.Conversation.{single_chat}
use nexo_im.Service.Message.Content.{SendMessageRequest}
use nexo_im.Service.Message.Pull.{PullMessagesRequest}

abbrev pub ann : Text
ann = codes "ann"

abbrev pub bob : Text
bob = codes "bob"

abbrev pub eve : Text
eve = codes "eve"

abbrev pub chat : Text
chat = codes "si_ann:bob"

abbrev pub club : Text
club = codes "club"

abbrev pub club_chat : Text
club_chat = codes "sg_club"

abbrev user : Text → User
user id = record {
  id = id;
  nickname = [];
  avatar = [];
  password = [];
  extra = none;
  created_at = pos 0;
  updated_at = pos 0;
}

abbrev pub hello : MessageContent
hello = record {
  text = some (codes "hi");
  image = none;
  video = none;
  audio = none;
  file = none;
  custom = [];
}

abbrev pub to_bob : SendMessageRequest
to_bob = record {
  client_msg_id = codes "m1";
  recv_id = bob;
  group_id = [];
  session_type = pos 1;
  msg_type = pos 1;
  content = hello;
}

abbrev pub message : ℤ → Text → Message
message n key = record {
  id = n;
  conversation_id = chat;
  seq = n;
  client_msg_id = key;
  sender_id = ann;
  recv_id = bob;
  group_id = [];
  session_type = pos 1;
  msg_type = pos 1;
  content = hello;
  send_at = pos 0;
  created_at = pos 0;
  updated_at = pos 0;
}

abbrev pub in_club : Message → Message
in_club m = record m {
  conversation_id = club_chat;
  recv_id = [];
  group_id = club;
  session_type = pos 2;
}

abbrev pub club_row : Group
club_row = record {
  id = club;
  name = [];
  introduction = [];
  avatar = [];
  status = pos 0;
  creator_user_id = ann;
  created_at = pos 0;
  updated_at = pos 0;
}

abbrev pub club_member : Text → ℤ → GroupMember
club_member u role = record {
  group_id = club;
  user_id = u;
  role_level = role;
  status = pos 0;
  joined_at = pos 0;
  join_seq = pos 1;
  inviter_user_id = [];
  updated_at = pos 0;
}

abbrev pub seq_user : Text → Text → SeqUser
seq_user u c = record {
  user_id = u;
  conversation_id = c;
  min_seq = pos 2;
  max_seq = pos 0;
  read_seq = pos 1;
}

abbrev pub seq_conversation : Text → ℤ → SeqConversation
seq_conversation c n = record { conversation_id = c; max_seq = n; min_seq = pos 0 }

abbrev pub two_users : Db
two_users = record no_rows { users = user ann ∷ user bob ∷ [] }

-- Two messages in the chat of ann and bob; bob sees from the second on.
abbrev pub two_messages : Db
two_messages = record two_users {
  messages = message (pos 2) (codes "m2") ∷ message (pos 1) (codes "m1") ∷ [];
  seq_conversations = seq_conversation chat (pos 2) ∷ [];
  seq_users = seq_user bob chat ∷ [];
  conversations = single_chat chat bob ann ∷ [];
}

-- A group of ann alone with one message.
abbrev pub one_club : Db
one_club = record two_users {
  groups = club_row ∷ [];
  members = club_member ann (pos 2) ∷ [];
  messages = in_club (message (pos 1) (codes "m1")) ∷ [];
  seq_conversations = seq_conversation club_chat (pos 1) ∷ [];
}

-- The same group with bob.
abbrev pub club_of_two : Db
club_of_two = record one_club {
  members = club_member ann (pos 2) ∷ club_member bob (pos 0) ∷ [];
  seq_users = seq_user bob club_chat ∷ [];
}

abbrev pub everything : Text → PullMessagesRequest
everything c = record { conversation_id = c; begin_seq = pos 0; end_seq = pos 0; limit = pos 0 }
