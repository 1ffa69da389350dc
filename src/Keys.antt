-- ===== src/Keys.antt =====
-- pkg/constant/constant.go: the formats of the keys in Redis, behind a prefix that the configuration
-- sets at the start.
use nexo_im.Base.{Text, codes, is_empty, ◌++◌, if◌then◌else◌}

abbrev pub default_prefix : Text
default_prefix = codes "nexo:"

-- The prefix after InitRedisKeyPrefix.
unfoldable pub init_redis_key_prefix : Text → Text → Text
init_redis_key_prefix given current = if is_empty given then current else given

module _ (redis_key_prefix : Text) where
  unfoldable pub redis_key_token : Text
  redis_key_token = redis_key_prefix ++ codes "token:%s:%d"

  unfoldable pub redis_key_online : Text
  redis_key_online = redis_key_prefix ++ codes "online:%s"

  unfoldable pub redis_key_online_conns : Text
  redis_key_online_conns = redis_key_prefix ++ codes "online:conns:%s"

  unfoldable pub redis_key_user : Text
  redis_key_user = redis_key_prefix ++ codes "user:%s"

  unfoldable pub redis_key_group_members : Text
  redis_key_group_members = redis_key_prefix ++ codes "group:members:%s"

  unfoldable pub redis_key_seq_conversation : Text
  redis_key_seq_conversation = redis_key_prefix ++ codes "seq:conv:%s"
