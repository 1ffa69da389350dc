-- ===== src/Repository/Statement.antt =====
-- The forms of SQL statements and Redis commands that the repositories share.
use nexo_im.Base.{ℤ, pos, ◌+ℤ◌, Text, codes, ◌=ₜ◌, ◌++◌, Option, none, some, if◌then◌else◌}
use nexo_im.Errors.{Result, ok, err, no_record}
use nexo_im.Backend.{Cache, RedisCommand}

-- `First`: the row, or gorm.ErrRecordNotFound.
abbrev pub found : {A : Type 0} → Option A → Result A
found none = err no_record
found (some a) = ok a

-- pkg/constant/constant.go: keys, with the configured prefix.
unfoldable pub redis_key_seq_conversation : Text → Text → Text
redis_key_seq_conversation prefix conversation_id = prefix ++ (codes "seq:conv:" ++ conversation_id)

unfoldable pub redis_key_group_members : Text → Text → Text
redis_key_group_members prefix group_id = prefix ++ (codes "group:members:" ++ group_id)

abbrev pub stored : Text → Option ℤ → Cache → Cache
stored key value c k = if key =ₜ k then value else c k

abbrev pub zero_or : Option ℤ → ℤ
zero_or none = pos 0
zero_or (some n) = n

-- INCR: a key that is missing counts from 0.
unfoldable pub incr : Text → RedisCommand ℤ
incr key c = let n = zero_or (c key) +ℤ pos 1 in (ok n, stored key (some n) c)

-- GET
unfoldable pub get : Text → RedisCommand ℤ
get key c = (found (c key), c)

-- SET
unfoldable pub set : Text → ℤ → RedisCommand (Unit {0})
set key n c = (ok tt, stored key (some n) c)

-- DEL
unfoldable pub del : Text → RedisCommand (Unit {0})
del key c = (ok tt, stored key none c)
